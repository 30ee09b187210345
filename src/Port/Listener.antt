-- ===== src/Port/Listener.antt =====
-- The listener's loop of discovery.c over any datagrams.
use socket_project.Prelude.{
  arith, ℕ, ◌<◌, ◌≡◌, ◌≢◌, refl, ap, ◌∙◌, inl, inr, Bool, true, false, Option, none, some, List, [],
  ◌∷◌, Bool-cases, length, All,
}
use socket_project.Wire.{Bytes, strcmp_eq}
use socket_project.Wire.Codec.{strcmp_eq_refl}
use socket_project.PeerList.{Peers, inet_addrstrlen}
use socket_project.PeerList.Slots.{peer_of}
use socket_project.PeerList.Table.{IsTable}
use socket_project.Discovery.{Discovery, on_datagram}
use socket_project.Discovery.Listener.{Touches, on_datagram-Touches}
use socket_project.Port.{Arrival, listener_loop, listener_thread}

-- `inet_ntop` writes at most 15 characters.
abbrev HasAddress : Option Arrival → Type 0
HasAddress none = Unit {0}
HasAddress (some a) = length a.src_ip < inet_addrstrlen

abbrev NotFrom : Bytes → Option Arrival → Type 0
NotFrom ip none = Unit {0}
NotFrom ip (some a) = a.src_ip ≢ ip

-- The table stays sound, the entries of addresses that sent nothing stay, and so does this node's.
abbrev pub Keeps : Discovery → List (Option Arrival) → Peers → Peers → Type 0
Keeps d rs g g' =
    IsTable g'
    × ((ip : Bytes) → All (NotFrom ip) rs → peer_of ip g' ≡ peer_of ip g)
    × (peer_of d.local_ip g' ≡ peer_of d.local_ip g)

-- The listener drops what comes from its own address.
on_datagram-own :
    (d : Discovery) (src_ip datagram : Bytes) (now now' : ℕ) (g : Peers)
    → strcmp_eq src_ip d.local_ip ≡ true
    → on_datagram d src_ip datagram now now' g ≡ g
unfolding on_datagram
on_datagram-own d src_ip datagram now now' g own = ground arith

own_kept :
    (d : Discovery) (src_ip datagram : Bytes) (now now' : ℕ) (g : Peers)
    → Touches src_ip g (on_datagram d src_ip datagram now now' g)
    → peer_of d.local_ip (on_datagram d src_ip datagram now now' g) ≡ peer_of d.local_ip g
own_kept d src_ip datagram now now' g t = elim (Bool-cases (strcmp_eq src_ip d.local_ip)) [
  | inl own ↦ ap (peer_of d.local_ip) (on_datagram-own d src_ip datagram now now' g own)
  | inr foreign ↦
      t.others d.local_ip (λ e. cc (ap (strcmp_eq src_ip) e, strcmp_eq_refl src_ip, foreign))
]

listener_loop-Keeps :
    (d : Discovery) (rs : List (Option Arrival)) (g : Peers)
    → All HasAddress rs
    → IsTable g
    → Keeps d rs g (listener_loop d rs g)
unfolding listener_loop
listener_loop-Keeps d [] g h t = (t, (λ ip n. refl), refl)
listener_loop-Keeps d (none ∷ rs) g h t =
    let (sound, others, own) = listener_loop-Keeps d rs g h.1 t in
    (sound, (λ ip n. others ip n.1), own)
listener_loop-Keeps d (some a ∷ rs) g h t =
    let one = on_datagram-Touches d a.src_ip a.datagram a.now a.now' g h.0 t in
    let (sound, others, own) = listener_loop-Keeps d rs _ h.1 one.sound in
    (
      sound,
      (λ ip n. others ip n.1 ∙ one.others ip n.0),
      own ∙ own_kept d a.src_ip a.datagram a.now a.now' g one,
    )

-- Whatever datagrams come, from addresses of at most 15 characters, and whichever calls of
-- recvfrom fail, listener_thread keeps a sound table sound, leaves the entry of every address from
-- which nothing came as it was, and never makes or changes the entry of the node's own address; so
-- it is too when its socket could not be made.
pub listener_thread-Keeps :
    (d : Discovery) (bound : Bool) (rs : List (Option Arrival)) (g : Peers)
    → All HasAddress rs
    → IsTable g
    → Keeps d rs g (listener_thread d bound rs g)
unfolding listener_thread
listener_thread-Keeps d false rs g h t = (t, (λ ip n. refl), refl)
listener_thread-Keeps d true rs g h t = listener_loop-Keeps d rs g h t
