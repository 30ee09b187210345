-- ===== src/Heartbeat/Alive.antt =====
-- A node that goes on announcing itself stays in the tables of the others.
use native.Mathlib.Nat.{mul-le-mul_right, suc-mul}
use socket_project.Prelude.{ℕ, ◌+◌, ◌*◌, ◌^◌, ◌≤◌, ◌<◌, ◌≡◌, ◌≢◌, refl, ◌∙◌, some, arith, length}
use socket_project.Wire.{Bytes, msg_hello}
use socket_project.PeerList.{PeerInfo, Peers, inet_addrstrlen, peer_timeout_secs, seen, announced}
use socket_project.PeerList.Slots.{peer_of}
use socket_project.PeerList.Table.{IsTable, adds, touches, call_peers}
use socket_project.Discovery.{send_broadcast}
use socket_project.Discovery.Packets.{on_datagram-hello, on_datagram-hello_calls}
use socket_project.Presence.{World, Steps, stay, more, calls, started, any_call, no_bye}
use socket_project.Presence.Bounds.{Inv, started-Inv, Step-Inv, Steps-Inv, Step-IsListed}
use socket_project.Heartbeat.{
  discovery_interval, Nodes, Pair, hear, sleep_again, Beat, arrives, loses, others, Beats, none_yet,
  then_one, heard,
}

-- What makes the announcer's HELLOs reach the listener's table.
pub record Reaches (n : Nodes) : Type 0 where
  pub packet : Bytes
  pub sent : send_broadcast n.announcer n.hostname msg_hello ≡ some packet
  pub port : n.announcer.own_port < 2 ^ 16
  pub other : n.src_ip ≢ n.listener.local_ip
  pub fits : length n.src_ip < inet_addrstrlen

-- A HELLO is two calls of the listener.
hear-eq :
    (n : Nodes) (now : ℕ) (g : Peers)
    → Reaches n
    → hear n now g
      ≡ call_peers (touches n.src_ip now) (call_peers (adds n.src_ip n.announcer.own_port now) g)
unfolding hear call_peers
hear-eq n now g h =
    rw (h.sent, hear)
      (on_datagram-hello_calls n.announcer n.listener n.hostname n.src_ip h.packet now now g h.sent
        h.port h.other)

hear-Steps :
    (late : ℕ) (n : Nodes) (w : World)
    → Reaches n
    → Steps late (no_bye n.src_ip) w (record w { peers = hear n w.now w.peers })
unfolding no_bye
hear-Steps late n w h = rw (hear-eq n w.now w.peers h) (
    more (more stay (calls (adds n.src_ip n.announcer.own_port w.now) refl (refl, h.fits)))
      (calls (touches n.src_ip w.now) refl refl))

-- An entry that is there was seen in this second.
hear-seen :
    (n : Nodes) (w : World) (q : PeerInfo)
    → Reaches n
    → IsTable w.peers
    → peer_of n.src_ip w.peers ≡ some q
    → (q' : PeerInfo) × (peer_of n.src_ip (hear n w.now w.peers) ≡ some q') × (q'.last_seen ≡ w.now)
unfolding hear seen
hear-seen n w q h t e = (
  seen w.now (announced n.announcer.own_port w.now q),
  rw (h.sent, hear)
      (on_datagram-hello n.announcer n.listener n.hostname n.src_ip h.packet w.now w.now w.peers
          h.sent h.port h.other h.fits t
        ∙ rw e refl),
  refl,
)

-- The table's entry is not older than the announcer's losses allow.
record Alive (late slow most : ℕ) (n : Nodes) (x : Pair) : Type 0 where
  inv : Inv late x.world
  entry : PeerInfo
  listed : peer_of n.src_ip x.world.peers ≡ some entry
  due : x.hello_at ≤ entry.last_seen + x.lost * (discovery_interval + slow) + discovery_interval
  prompt : x.world.now ≤ x.hello_at + slow
  few : x.lost ≤ most

young :
    (late slow most : ℕ) (n : Nodes) (x : Pair)
    → (most + 1) * (discovery_interval + slow) ≤ peer_timeout_secs
    → (a : Alive late slow most n x) → x.hello_at + slow ≤ a.entry.last_seen + peer_timeout_secs
young late slow most n x p a =
    let l : x.lost + 1 ≤ most + 1 = omega (arith, a.few) in
    omega (arith, a.due, p, mul-le-mul_right (discovery_interval + slow) l)

Beat-Alive :
    {late slow most : ℕ} {n : Nodes} {x y : Pair}
    → Reaches n
    → (most + 1) * (discovery_interval + slow) ≤ peer_timeout_secs
    → Beat late slow most n x y
    → Alive late slow most n x
    → Alive late slow most n y
unfolding sleep_again
Beat-Alive {late} {slow} {most} {n} h p (arrives {x} d) a =
    let (q, e, s) = hear-seen n x.world a.entry h a.inv.sound a.listed in
    record {
      inv = Steps-Inv (hear-Steps late n x.world h) a.inv;
      entry = q;
      listed = e;
      due = omega (arith, s);
      prompt = omega arith;
      few = omega arith;
    }
Beat-Alive {late} {slow} {most} {n} h p (loses {x} d l) a = record {
  inv = a.inv;
  entry = a.entry;
  listed = a.listed;
  due = omega (arith, a.due, a.prompt, suc-mul x.lost (discovery_interval + slow));
  prompt = omega arith;
  few = omega arith;
}
Beat-Alive {late} {slow} {most} {n} h p (others {x} {v} s l) a =
    let y = young late slow most n x p a in
    let (q, e, k) =
      Step-IsListed n.src_ip a.entry.last_seen s a.inv (omega arith)
        (a.entry, a.listed, omega arith) in
    record {
      inv = Step-Inv s a.inv;
      entry = q;
      listed = e;
      due = omega (arith, a.due, k);
      prompt = l;
      few = a.few;
    }

Beats-Alive :
    {late slow most : ℕ} {n : Nodes} {x y : Pair}
    → Reaches n
    → (most + 1) * (discovery_interval + slow) ≤ peer_timeout_secs
    → Beats late slow most n x y
    → Alive late slow most n x
    → Alive late slow most n y
Beats-Alive h p none_yet a = a
Beats-Alive h p (then_one r b) a = Beat-Alive h p b (Beats-Alive h p r a)

-- When announcer_thread wakes at most `slow` seconds late, at most `most` of its HELLOs in a row
-- are lost, (most + 1) * (5 + slow) is at most 30, its broadcast socket is open, its port is below
-- 65536, and its address has at most 15 characters and is not the listener's, an entry that was
-- just seen stays in the listener's table and is never older than 30 seconds, in every run in
-- which no BYE comes from that address, whatever else the listener, the dispatcher and the reaper
-- do in between.
pub Beats-heard :
    (late slow most t₀ : ℕ) (n : Nodes) (w : World) (p : PeerInfo) (x : Pair)
    → Reaches n
    → (most + 1) * (discovery_interval + slow) ≤ peer_timeout_secs
    → Steps late any_call (started t₀) w
    → peer_of n.src_ip w.peers ≡ some p
    → p.last_seen ≡ w.now
    → Beats late slow most n (heard w) x
    → (q : PeerInfo) × (peer_of n.src_ip x.world.peers ≡ some q)
      × (x.world.now ≤ q.last_seen + peer_timeout_secs)
unfolding heard sleep_again
Beats-heard late slow most t₀ n w p x h l r e s b =
    let start : Alive late slow most n (heard w) = record {
      inv = Steps-Inv r (started-Inv late t₀);
      entry = p;
      listed = e;
      due = omega (arith, s);
      prompt = omega arith;
      few = omega arith;
    } in
    let a = Beats-Alive h l b start in
    (a.entry, a.listed, omega (arith, young late slow most n x l a, a.prompt))
