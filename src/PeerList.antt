-- ===== src/PeerList.antt =====
-- New_socket_proj/peer_list.c: the peer table, `g_peers`, as a list of slots. A function of the source
-- takes the table and returns the new one; each runs under `g_lock`, so none sees another's middle.
-- `time(NULL)` is the argument `now`.
pub mod Slots
pub mod Table
pub mod Lookup
pub mod Add
pub mod Reap
pub mod Tests
use socket_project.Prelude.{
  ℕ, zero, suc, ◌+◌, ◌-◌, Bool, true, false, ◌&&◌, not, Option, none, some, List, [], ◌∷◌, ltb,
  if◌then◌else◌, take, replicate,
}
use socket_project.Wire.{Bytes, strcmp_eq, read_load_resp}

abbrev pub max_peers : ℕ
max_peers = 64

abbrev pub inet_addrstrlen : ℕ
inet_addrstrlen = 16

abbrev pub peer_timeout_secs : ℕ
peer_timeout_secs = 30

-- `peer_info_t`; `load_pct` is the bit pattern of the float.
pub record PeerInfo : Type 0 where
  pub ip : Bytes
  pub port : ℕ
  pub load_pct : ℕ
  pub active_tasks : ℕ
  pub total_tasks : ℕ
  pub num_cores : ℕ
  pub last_seen : ℕ
  pub valid : Bool

abbrev pub Peers : Type 0
Peers = List PeerInfo

-- `memset(&g_peers[i], 0, sizeof(peer_info_t))`
unfoldable pub zero_peer : PeerInfo
zero_peer = record {
  ip = [];
  port = 0;
  load_pct = 0;
  active_tasks = 0;
  total_tasks = 0;
  num_cores = 0;
  last_seen = 0;
  valid = false;
}

unfoldable pub peer_list_init : Peers
peer_list_init = replicate max_peers zero_peer

-- `for (i = 0; ...) if (test) return i; return -1`, from index `i` on.
unfoldable pub first_slot : (PeerInfo → Bool) → ℕ → Peers → Option ℕ
first_slot test i [] = none
first_slot test i (p ∷ ps) = if test p then some i else first_slot test (suc i) ps

unfoldable pub matches : Bytes → PeerInfo → Bool
matches ip p = p.valid && strcmp_eq p.ip ip

unfoldable pub find_slot : Bytes → Peers → Option ℕ
find_slot ip = first_slot (matches ip) 0

unfoldable pub find_free_slot : Peers → Option ℕ
find_free_slot = first_slot (λ p. not p.valid) 0

-- Assignments to fields of `g_peers[idx]`.
unfoldable pub modify : Peers → ℕ → (PeerInfo → PeerInfo) → Peers
modify [] idx f = []
modify (p ∷ ps) zero f = f p ∷ ps
modify (p ∷ ps) (suc idx) f = p ∷ modify ps idx f

unfoldable pub new_peer : Bytes → PeerInfo
unfolding zero_peer
new_peer ip = record zero_peer { ip = take (inet_addrstrlen - 1) ip; valid = true; num_cores = 1 }

unfoldable pub announced : ℕ → ℕ → PeerInfo → PeerInfo
announced port now p = record p { port = port; last_seen = now }

unfoldable pub peer_list_add : Bytes → ℕ → ℕ → Peers → Peers
peer_list_add ip port now g = elim (find_slot ip g) [
  | some idx ↦ modify g idx (announced port now)
  | none ↦ elim (find_free_slot g) [
    | none ↦ g
    | some idx ↦ modify (modify g idx (λ _. new_peer ip)) idx (announced port now)
  ]
]

unfoldable pub peer_list_remove : Bytes → Peers → Peers
peer_list_remove ip g = elim (find_slot ip g) [
  | some idx ↦ modify g idx (λ _. zero_peer)
  | none ↦ g
]

-- `resp` is the payload as it came: four words in network order.
unfoldable pub load_reported : Bytes → ℕ → PeerInfo → PeerInfo
load_reported resp now p = record p {
  load_pct = (read_load_resp resp).load_pct;
  active_tasks = (read_load_resp resp).active_tasks;
  total_tasks = (read_load_resp resp).total_tasks;
  num_cores = (read_load_resp resp).num_cores;
  last_seen = now;
}

unfoldable pub peer_list_update_load : Bytes → Bytes → ℕ → Peers → Peers
peer_list_update_load ip resp now g = elim (find_slot ip g) [
  | some idx ↦ modify g idx (load_reported resp now)
  | none ↦ g
]

unfoldable pub seen : ℕ → PeerInfo → PeerInfo
seen now p = record p { last_seen = now }

unfoldable pub peer_list_touch : Bytes → ℕ → Peers → Peers
peer_list_touch ip now g = elim (find_slot ip g) [ some idx ↦ modify g idx (seen now) | none ↦ g ]

-- The loop ends at `count < max`; `max` here is what is left of it.
unfoldable pub peer_list_get_all : ℕ → Peers → Peers
peer_list_get_all max [] = []
peer_list_get_all zero (p ∷ ps) = []
peer_list_get_all (suc max) (p ∷ ps) =
    if p.valid then p ∷ peer_list_get_all max ps else peer_list_get_all (suc max) ps

-- The clock may step back: `-` stops at 0, where the source has a negative number; neither is over
-- the limit.
unfoldable pub is_stale : ℕ → PeerInfo → Bool
is_stale now p = p.valid && ltb peer_timeout_secs (now - p.last_seen)

unfoldable pub peer_list_reap_stale : ℕ → Peers → Peers
peer_list_reap_stale now [] = []
peer_list_reap_stale now (p ∷ ps) =
    (if is_stale now p then zero_peer else p) ∷ peer_list_reap_stale now ps
