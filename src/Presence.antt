-- ===== src/Presence.antt =====
-- New_socket_proj/discovery.c: the peer table over time. reaper_thread sleeps and reaps; every other call
-- of peer_list.c, by the listener and the dispatcher, can come between at any moment, each under the
-- table's lock. Time is in seconds. `late` bounds how long after its sleep the reaper gets to run.
pub mod Calls
pub mod Bounds
pub mod Tests
use socket_project.Prelude.{ℕ, suc, ◌+◌, ◌≤◌, ◌<◌, ◌≡◌, Bool, true, not, length}
use socket_project.Wire.{Bytes, strcmp_eq}
use socket_project.PeerList.{
  Peers, inet_addrstrlen, peer_timeout_secs, peer_list_init, peer_list_reap_stale,
}
use socket_project.PeerList.Table.{
  PeerCall, adds, removes, updates_load, touches, reaps, call_peers,
}

-- `PEER_TIMEOUT_SECS / 2`
abbrev pub reap_interval : ℕ
reap_interval = 15

-- `reap_at` is when the reaper's sleep ends.
pub record World : Type 0 where
  pub now : ℕ
  pub reap_at : ℕ
  pub peers : Peers

-- A call of the listener or the dispatcher at the time `now`, with an address that fits its field.
abbrev pub IsCallAt : ℕ → PeerCall → Type 0
IsCallAt now (adds ip port time) = (time ≡ now) × (length ip < inet_addrstrlen)
IsCallAt now (removes ip) = Unit {0}
IsCallAt now (updates_load ip resp time) = time ≡ now
IsCallAt now (touches ip time) = time ≡ now
IsCallAt now (reaps time) = ⊥

-- One round of `reaper_thread` after its sleep.
unfoldable pub reap_round : World → World
reap_round w = record w {
  reap_at = w.now + reap_interval;
  peers = peer_list_reap_stale w.now w.peers;
}

-- `may` says which calls come.
pub data Step (late : ℕ) (may : PeerCall → Bool) : World → World → Type 0 where
  ticks : {w : World} → w.now < w.reap_at + late → Step late may w (record w { now = suc w.now })
  reaps_stale : {w : World} → w.reap_at ≤ w.now → Step late may w (reap_round w)
  calls :
      {w : World} (c : PeerCall)
      → may c ≡ true
      → IsCallAt w.now c
      → Step late may w (record w { peers = call_peers c w.peers })

pub data Steps (late : ℕ) (may : PeerCall → Bool) : World → World → Type 0 where
  stay : {w : World} → Steps late may w w
  more : {w v u : World} → Steps late may w v → Step late may v u → Steps late may w u

-- `peer_list_init` and the start of the reaper at the time `now`.
unfoldable pub started : ℕ → World
started now = record { now = now; reap_at = now + reap_interval; peers = peer_list_init }

unfoldable pub any_call : PeerCall → Bool
any_call c = true

-- No BYE comes from `ip`.
unfoldable pub no_bye : Bytes → PeerCall → Bool
no_bye ip (removes src_ip) = not (strcmp_eq src_ip ip)
no_bye ip _ = true
