-- ===== src/Directory.antt =====
-- New_socket_proj/peer_list.h: the peer table as its clients see it, a collection of entries in no order
-- with room for 64. Two lists stand for the same directory if every test holds of as many entries.
pub mod Laws
pub mod Entries
pub mod Refinement
pub mod Tests
use mathlib.Core.Quot
use mathlib.Core.Quot.{Quot, Quot-set}
use socket_project.Prelude.{
  ℕ, ◌+◌, ◌-◌, ◌≡◌, Bool, true, false, ◌&&◌, not, List, [], ◌∷◌, ltb, if◌then◌else◌, length,
}
use socket_project.Wire.{Bytes, strcmp_eq}
use socket_project.PeerList.{
  PeerInfo, Peers, max_peers, peer_timeout_secs, announced, load_reported, seen,
}
use socket_project.PeerList.Slots.{added}
use socket_project.PeerList.Table.{PeerCall, adds, removes, updates_load, touches, reaps}

unfoldable pub count_if : (PeerInfo → Bool) → Peers → ℕ
count_if test [] = 0
count_if test (p ∷ l) = (if test p then 1 else 0) + count_if test l

abbrev pub SameEntries : Peers → Peers → Type 0
SameEntries xs ys = (test : PeerInfo → Bool) → count_if test xs ≡ count_if test ys

abbrev pub Directory : Type 0
Directory = Quot SameEntries

unfoldable pub is_named : Bytes → PeerInfo → Bool
is_named ip p = strcmp_eq p.ip ip

unfoldable pub is_listed : Bytes → Peers → Bool
is_listed ip l = ltb 0 (count_if (is_named ip) l)

abbrev pub at_name : Bytes → (PeerInfo → PeerInfo) → PeerInfo → PeerInfo
at_name ip f p = if is_named ip p then f p else p

unfoldable pub update_named : Bytes → (PeerInfo → PeerInfo) → Peers → Peers
update_named ip f [] = []
update_named ip f (p ∷ l) = at_name ip f p ∷ update_named ip f l

unfoldable pub drop_if : (PeerInfo → Bool) → Peers → Peers
drop_if test [] = []
drop_if test (p ∷ l) = if test p then drop_if test l else p ∷ drop_if test l

unfoldable pub is_old : ℕ → PeerInfo → Bool
is_old now p = ltb peer_timeout_secs (now - p.last_seen)

-- What each call does to the entries.
unfoldable pub call_entries : PeerCall → Peers → Peers
call_entries (adds ip port now) l =
    if is_listed ip l
    then update_named ip (announced port now) l
    else (if ltb (length l) max_peers then added ip port now ∷ l else l)
call_entries (removes ip) l = drop_if (is_named ip) l
call_entries (updates_load ip resp now) l = update_named ip (load_reported resp now) l
call_entries (touches ip now) l = update_named ip (seen now) l
call_entries (reaps now) l = drop_if (is_old now) l

-- The entries of a table: its slots in use.
unfoldable pub entries : Peers → Peers
entries [] = []
entries (p ∷ g) = if p.valid then p ∷ entries g else entries g

unfoldable pub view : Peers → Directory
view g = Quot.mk (entries g)
