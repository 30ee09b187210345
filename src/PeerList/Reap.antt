-- ===== src/PeerList/Reap.antt =====
-- `peer_list_reap_stale` and `peer_list_get_all`: what is dropped, and what a snapshot shows.
use socket_project.Prelude.{
  ℕ, zero, suc, ◌-◌, ◌≤◌, min, ◌≡◌, refl, true, Option, none, some, [], ◌∷◌, arith, ltb,
  if◌then◌else◌, length, All,
}
use socket_project.Wire.{Bytes}
use socket_project.PeerList.{
  PeerInfo, Peers, max_peers, peer_timeout_secs, matches, is_stale, peer_list_reap_stale,
  peer_list_get_all,
}
use socket_project.PeerList.Slots.{count, peer_of, peer_of-none}
use socket_project.PeerList.Table.{IsTable, zero_peer-matches}
use socket_project.PeerList.Add.{used, used-le}

-- An entry stays while at most 30 seconds have passed since it was last seen.
abbrev pub kept : ℕ → Option PeerInfo → Option PeerInfo
kept now none = none
kept now (some p) = if ltb peer_timeout_secs (now - p.last_seen) then none else some p

reap-peer_of :
    (now : ℕ) (g : Peers) (ip : Bytes)
    → count ip g ≤ 1
    → peer_of ip (peer_list_reap_stale now g) ≡ kept now (peer_of ip g)
unfolding peer_of count peer_list_reap_stale is_stale matches
reap-peer_of now [] ip h = refl
reap-peer_of now (p ∷ g) ip h =
    ground (arith, zero_peer-matches ip, reap-peer_of now g ip, peer_of-none ip g)

-- On a sound table, peer_list_reap_stale deletes the entry of an address exactly when more than 30
-- seconds have passed since it was last seen, and leaves all others as they were.
pub peer_list_reap_stale-peer_of :
    (now : ℕ) (g : Peers) (ip : Bytes)
    → IsTable g
    → peer_of ip (peer_list_reap_stale now g) ≡ kept now (peer_of ip g)
peer_list_reap_stale-peer_of now g ip t = reap-peer_of now g ip (t.unique ip)

get_all-zero : (g : Peers) → peer_list_get_all 0 g ≡ []
unfolding peer_list_get_all
get_all-zero [] = refl
get_all-zero (p ∷ g) = refl

get_all-peer_of :
    (max : ℕ) (g : Peers) (ip : Bytes)
    → used g ≤ max
    → peer_of ip (peer_list_get_all max g) ≡ peer_of ip g
unfolding peer_of peer_list_get_all used matches
get_all-peer_of max [] ip h = refl
get_all-peer_of zero (p ∷ g) ip h = ground (arith, get_all-peer_of zero g ip, get_all-zero g)
get_all-peer_of (suc max) (p ∷ g) ip h =
    ground (arith, get_all-peer_of max g ip, get_all-peer_of (suc max) g ip)

length-get_all : (max : ℕ) (g : Peers) → length (peer_list_get_all max g) ≡ min max (used g)
unfolding peer_list_get_all used
length-get_all max [] = omega arith
length-get_all zero (p ∷ g) = omega arith
length-get_all (suc max) (p ∷ g) = ground (arith, length-get_all max g, length-get_all (suc max) g)

peer_list_get_all_valid :
    (max : ℕ) (g : Peers) → All (λ p. p.valid ≡ true) (peer_list_get_all max g)
unfolding peer_list_get_all
peer_list_get_all_valid max [] = tt
peer_list_get_all_valid zero (p ∷ g) = tt
peer_list_get_all_valid (suc max) (p ∷ g) =
    ground (arith, peer_list_get_all_valid max g, peer_list_get_all_valid (suc max) g)

-- On a sound table, the snapshot of peer_list_get_all with room for 64 entries maps every address
-- to the same entry as the table, has as many entries as the table has slots in use, and holds
-- valid entries alone.
peer_list_get_all_snapshot :
    (g : Peers)
    → IsTable g
    → ((ip : Bytes) → peer_of ip (peer_list_get_all max_peers g) ≡ peer_of ip g)
      × (length (peer_list_get_all max_peers g) ≡ used g)
      × All (λ p. p.valid ≡ true) (peer_list_get_all max_peers g)
peer_list_get_all_snapshot g t = (
  λ ip. get_all-peer_of max_peers g ip (omega (arith, used-le g, t.size)),
  omega (arith, length-get_all max_peers g, used-le g, t.size),
  peer_list_get_all_valid max_peers g,
)
