-- ===== src/Presence/Bounds.antt =====
-- How long an entry of the peer table outlives its node, and how long it is sure to stay.
use socket_project.Prelude.{
  ℕ, ◌+◌, ◌-◌, ◌≤◌, ◌≡◌, refl, sym, ◌∙◌, inl, inr, Bool, false, Option, none, some, arith, ltb,
}
use socket_project.Wire.{Bytes}
use socket_project.PeerList.{PeerInfo, Peers, peer_timeout_secs, peer_list_init, zero_peer, matches}
use socket_project.PeerList.Slots.{peer_of}
use socket_project.PeerList.Table.{
  IsTable, PeerCall, adds, removes, updates_load, touches, reaps, call_peers, call_peers-IsTable,
  CallFits, peer_list_init-IsTable, peer_list_reap_stale-IsTable,
}
use socket_project.PeerList.Reap.{kept, peer_list_reap_stale-peer_of}
use socket_project.Presence.{
  World, IsCallAt, reap_round, reap_interval, Step, ticks, reaps_stale, calls, Steps, stay, more,
  started, any_call, no_bye,
}
use socket_project.Presence.Calls.{Keeps, Ages-some, call_peers-Ages, call_peers-Keeps}

pub record Inv (late : ℕ) (w : World) : Type 0 where
  pub sound : IsTable w.peers
  pub due : w.now ≤ w.reap_at + late
  pub soon : w.reap_at ≤ w.now + reap_interval
  pub entries :
      (ip : Bytes) (p : PeerInfo)
      → peer_of ip w.peers ≡ some p
      → (w.reap_at ≤ p.last_seen + 45) × (p.last_seen ≤ w.now)

pub started-Inv : (late t₀ : ℕ) → Inv late (started t₀)
unfolding started peer_of peer_list_init zero_peer matches
started-Inv late t₀ = record {
  sound = peer_list_init-IsTable;
  due = omega arith;
  soon = omega arith;
  entries = λ ip p e. absurd (cc);
}

IsCallAt-CallFits : (c : PeerCall) (now : ℕ) → IsCallAt now c → CallFits c
IsCallAt-CallFits (adds ip port time) now h = h.1
IsCallAt-CallFits (removes ip) now h = tt
IsCallAt-CallFits (updates_load ip resp time) now h = tt
IsCallAt-CallFits (touches ip time) now h = tt
IsCallAt-CallFits (reaps time) now h = tt

kept-some :
    (now : ℕ) (o : Option PeerInfo) (q : PeerInfo)
    → kept now o ≡ some q
    → (o ≡ some q) × (now ≤ q.last_seen + peer_timeout_secs)
kept-some now none q e = absurd (cc)
kept-some now (some p) q e = ground arith

pub Step-Inv :
    {late : ℕ} {may : PeerCall → Bool} {w v : World} → Step late may w v → Inv late w → Inv late v
unfolding reap_round
Step-Inv (ticks {w} l) h = record {
  sound = h.sound;
  due = omega arith;
  soon = omega (arith, h.soon);
  entries = λ ip p e. let k = h.entries ip p e in (k.0, omega (arith, k.1));
}
Step-Inv (reaps_stale {w} l) h = record {
  sound = peer_list_reap_stale-IsTable w.now w.peers h.sound;
  due = omega arith;
  soon = omega arith;
  entries = λ ip p e.
      let (old, young) =
        kept-some w.now (peer_of ip w.peers) p
          (sym (peer_list_reap_stale-peer_of w.now w.peers ip h.sound) ∙ e) in
      let k = h.entries ip p old in (omega (arith, young), k.1);
}
Step-Inv (calls {w} c m at') h = record {
  sound = call_peers-IsTable c w.peers (IsCallAt-CallFits c w.now at') h.sound;
  due = h.due;
  soon = h.soon;
  entries = λ ip p e.
      elim (Ages-some w.now (peer_of ip w.peers) (peer_of ip (call_peers c w.peers)) p
        (call_peers-Ages c w.now w.peers ip at' h.sound) e) [
          | inl now ↦ (omega (arith, h.soon), omega arith)
          | inr old ↦ h.entries ip p old
        ];
}

pub Steps-Inv :
    {late : ℕ} {may : PeerCall → Bool} {w v : World} → Steps late may w v → Inv late w → Inv late v
Steps-Inv stay h = h
Steps-Inv (more r s) h = Step-Inv s (Steps-Inv r h)

-- Whatever calls the listener and the dispatcher make at whatever moments, an entry of the peer
-- table was last seen at most 45 seconds ago, plus the seconds by which the reaper wakes late.
pub entry_age :
    (late t₀ : ℕ) (w : World) (ip : Bytes) (p : PeerInfo)
    → Steps late any_call (started t₀) w
    → peer_of ip w.peers ≡ some p
    → w.now ≤ p.last_seen + peer_timeout_secs + reap_interval + late
entry_age late t₀ w ip p r e =
    let h = Steps-Inv r (started-Inv late t₀) in
    let k = h.entries ip p e in omega (arith, h.due, k.0)

-- The entry of `ip` is there, and no older than `since`.
abbrev pub IsListed : Bytes → ℕ → Peers → Type 0
IsListed ip since g = (q : PeerInfo) × (peer_of ip g ≡ some q) × (since ≤ q.last_seen)

Keeps-IsListed :
    (now : ℕ) (p : PeerInfo) (o : Option PeerInfo)
    → p.last_seen ≤ now
    → Keeps now p o
    → (q : PeerInfo) × (o ≡ some q) × (p.last_seen ≤ q.last_seen)
Keeps-IsListed now p none l k = absurd k
Keeps-IsListed now p (some q) l (inl e) = (q, refl, omega arith)
Keeps-IsListed now p (some q) l (inr e) = (q, refl, omega arith)

pub Step-IsListed :
    {late : ℕ} {w v : World} (ip : Bytes) (since : ℕ)
    → Step late (no_bye ip) w v
    → Inv late w
    → v.now ≤ since + peer_timeout_secs
    → IsListed ip since w.peers
    → IsListed ip since v.peers
unfolding reap_round
Step-IsListed ip since (ticks l) h k q = q
Step-IsListed ip since (reaps_stale {w} l) h k (q, e, a) =
    let young : ltb peer_timeout_secs (w.now - q.last_seen) ≡ false = ground arith in
    (q, peer_list_reap_stale-peer_of w.now w.peers ip h.sound ∙ rw (e, young) refl, a)
Step-IsListed ip since (calls {w} c m at') h k (q, e, a) =
    let (q', e', a') =
      Keeps-IsListed w.now q (peer_of ip (call_peers c w.peers)) (h.entries ip q e).1
        (call_peers-Keeps c w.now w.peers ip q at' m h.sound e) in
    (q', e', omega arith)

Step_now : {late : ℕ} {may : PeerCall → Bool} {w v : World} → Step late may w v → w.now ≤ v.now
unfolding reap_round
Step_now (ticks l) = omega arith
Step_now (reaps_stale l) = omega arith
Step_now (calls c m at') = omega arith

Steps-IsListed :
    {late : ℕ} (ip : Bytes) (since : ℕ) {w v : World}
    → Steps late (no_bye ip) w v
    → Inv late w
    → v.now ≤ since + peer_timeout_secs
    → IsListed ip since w.peers
    → IsListed ip since v.peers
Steps-IsListed ip since stay h k q = q
Steps-IsListed ip since (more r s) h k q =
    Step-IsListed ip since s (Steps-Inv r h) k
      (Steps-IsListed ip since r h (omega (arith, Step_now s)) q)

-- An entry of the peer table is still there, and no older, up to 30 seconds after it was last
-- seen, in every run in which no BYE comes from its address.
entry_stays :
    (late t₀ : ℕ) (w v : World) (ip : Bytes) (p : PeerInfo)
    → Steps late any_call (started t₀) w
    → peer_of ip w.peers ≡ some p
    → Steps late (no_bye ip) w v
    → v.now ≤ p.last_seen + peer_timeout_secs
    → (q : PeerInfo) × (peer_of ip v.peers ≡ some q) × (p.last_seen ≤ q.last_seen)
entry_stays late t₀ w v ip p r e s k =
    Steps-IsListed ip p.last_seen s (Steps-Inv r (started-Inv late t₀)) k (p, e, omega arith)
