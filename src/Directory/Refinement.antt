-- ===== src/Directory/Refinement.antt =====
-- Every run of calls of peer_list.c is a run of calls on its directory.
use mathlib.Core.Path.{subst}
use mathlib.Core.Quot
use mathlib.Core.Quot.{Quot, Quot-set}
use socket_project.Prelude.{
  ℕ, zero, suc, ◌≤◌, ◌<◌, ◌≡◌, refl, sym, ap, ◌∙◌, true, false, not, inl, inr, List, [], ◌∷◌, ◌++◌,
  ltb, length, length-append, arith, All,
}
use socket_project.Wire.{Bytes}
use socket_project.PeerList.{
  PeerInfo, Peers, max_peers, matches, find_slot, find_free_slot, zero_peer, announced,
  load_reported, seen, peer_list_init, peer_list_add, peer_list_update_load, peer_list_touch,
  peer_list_get_all,
}
use socket_project.PeerList.Slots.{
  count, count-append, first_slot-SlotFound, modify-Found, count-of_misses, added, added_fields,
  peer_list_add-eq,
}
use socket_project.PeerList.Table.{
  IsTable, announced-KeepsName, load_reported-KeepsName, seen-KeepsName, PeerCall, adds, removes,
  updates_load, touches, reaps, call_peers, run_peers, CallFits, call_peers-IsTable,
  peer_list_init-IsTable, run_peers-init-IsTable,
}
use socket_project.PeerList.Lookup.{updated}
use socket_project.Directory.{count_if, SameEntries, is_listed, call_entries, entries, view}
use socket_project.Directory.Laws.{call_directory, run_directory}
use socket_project.Directory.Entries.{
  count_if-entries, entries_valid, entries_free, entries-updated, entries-remove, entries-reap,
}

-- A new entry in a free slot, wherever that is.
SameEntries-middle : (p : PeerInfo) (xs ys : Peers) → SameEntries (xs ++ (p ∷ ys)) (p ∷ (xs ++ ys))
unfolding count_if
SameEntries-middle p [] ys test = refl
SameEntries-middle p (x ∷ xs) ys test = omega (arith, SameEntries-middle p xs ys test)

length-entries_full : (g : Peers) → All (λ p. not p.valid ≡ false) g → length (entries g) ≡ length g
unfolding entries
length-entries_full [] h = refl
length-entries_full (p ∷ g) h = ground (arith, length-entries_full g h.1, h.0)

pub length-entries-le : (g : Peers) → length (entries g) ≤ length g
unfolding entries
length-entries-le [] = omega arith
length-entries-le (p ∷ g) = ground (arith, length-entries-le g)

length-entries_free :
    (front back : Peers) (p : PeerInfo)
    → p.valid ≡ false
    → length (entries (front ++ p ∷ back)) < length (front ++ p ∷ back)
length-entries_free front back p v =
    let e = ap (λ (u : Peers). length u) (entries_free front back p v) in
    omega (
      arith,
      e,
      length-append (entries front) (entries back),
      length-append front (p ∷ back),
      length-entries-le front,
      length-entries-le back,
    )

unlisted : (ip : Bytes) (g : Peers) → count ip g ≡ 0 → is_listed ip (entries g) ≡ false
unfolding is_listed
unlisted ip g h = rw (count_if-entries ip g, h) refl

listed :
    (ip : Bytes) (front back : Peers) (p : PeerInfo)
    → matches ip p ≡ true
    → is_listed ip (entries (front ++ p ∷ back)) ≡ true
unfolding is_listed count
listed ip front back p h =
    rw (count_if-entries ip (front ++ p ∷ back), count-append ip front (p ∷ back), h) (ground arith)

add-SameEntries :
    (ip : Bytes) (port now : ℕ) (g : Peers)
    → CallFits (adds ip port now)
    → IsTable g
    → SameEntries
        (entries (peer_list_add ip port now g))
        (call_entries (adds ip port now) (entries g))
unfolding find_slot find_free_slot call_entries
add-SameEntries ip port now g l t test = elim (first_slot-SlotFound (matches ip) g) [
  | inr (j, e, found) ↦
      let known : is_listed ip (entries g) ≡ true =
        ap (λ u. is_listed ip (entries u)) found.whole
        ∙ listed ip found.front found.back found.here found.passes in
      rw (peer_list_add-eq ip port now g, known, e)
        (ap (count_if test) (
          rw (e, updated) at
            (entries-updated ip (announced port now) g (announced-KeepsName port now)
              (t.unique ip))))
  | inl (e, h) ↦
      let new : is_listed ip (entries g) ≡ false = unlisted ip g (count-of_misses ip g h) in
      elim (first_slot-SlotFound (λ p. not p.valid) g) [
        | inl (e', full) ↦
            let no_room : ltb (length (entries g)) max_peers ≡ false =
              rw (length-entries_full g full, t.size) refl in
            rw (peer_list_add-eq ip port now g, e, e', new, no_room) refl
        | inr (i, e', found) ↦
            let p = found.here in
            let n = added ip port now in
            let v : p.valid ≡ false = ground arith in
            let w = found.whole in
            let less : length (entries g) < length g =
              subst (λ u. length (entries u) < length u) (sym w)
                (length-entries_free found.front found.back p v) in
            let room : ltb (length (entries g)) max_peers ≡ true = ground (arith, t.size) in
            rw (peer_list_add-eq ip port now g, e, e', new, room, modify-Found found (λ _. n))
              (ap (count_if test)
                  (entries_valid found.front found.back n (added_fields ip port now l).1)
                ∙ SameEntries-middle n (entries found.front) (entries found.back) test
                ∙ ap (λ u. count_if test (n ∷ u))
                    (sym (ap entries w ∙ entries_free found.front found.back p v)))
      ]
]

call_peers-SameEntries :
    (c : PeerCall) (g : Peers)
    → CallFits c
    → IsTable g
    → SameEntries (entries (call_peers c g)) (call_entries c (entries g))
unfolding call_peers call_entries peer_list_update_load peer_list_touch
call_peers-SameEntries (adds ip port now) g l t test = add-SameEntries ip port now g l t test
call_peers-SameEntries (removes ip) g l t test =
    ap (count_if test) (entries-remove ip g (t.unique ip))
call_peers-SameEntries (updates_load ip resp now) g l t test =
    ap (count_if test) (
      entries-updated ip (load_reported resp now) g (load_reported-KeepsName resp now)
        (t.unique ip))
call_peers-SameEntries (touches ip now) g l t test =
    ap (count_if test) (entries-updated ip (seen now) g (seen-KeepsName now) (t.unique ip))
call_peers-SameEntries (reaps now) g l t test = ap (count_if test) (entries-reap now g)

view-call_peers :
    (c : PeerCall) (g : Peers)
    → CallFits c
    → IsTable g
    → view (call_peers c g) ≡ call_directory c (view g)
unfolding view call_directory
view-call_peers c g l t = Quot.sound (call_peers-SameEntries c g l t)

view-run_peers_from :
    (cs : List PeerCall) (g : Peers)
    → All CallFits cs
    → IsTable g
    → view (run_peers cs g) ≡ run_directory cs (view g)
unfolding run_peers run_directory
view-run_peers_from [] g l t = refl
view-run_peers_from (c ∷ cs) g l t =
    view-run_peers_from cs (call_peers c g) l.1 (call_peers-IsTable c g l.0 t)
    ∙ ap (run_directory cs) (view-call_peers c g l.0 t)

get_all-zero : (g : Peers) → peer_list_get_all 0 g ≡ []
unfolding peer_list_get_all
get_all-zero [] = refl
get_all-zero (p ∷ g) = refl

pub peer_list_get_all-entries :
    (max : ℕ) (g : Peers) → length (entries g) ≤ max → peer_list_get_all max g ≡ entries g
unfolding peer_list_get_all entries
peer_list_get_all-entries zero [] h = refl
peer_list_get_all-entries (suc max) [] h = refl
peer_list_get_all-entries zero (p ∷ g) h =
    ground (arith, peer_list_get_all-entries zero g, get_all-zero g)
peer_list_get_all-entries (suc max) (p ∷ g) h =
    ground (arith, peer_list_get_all-entries max g, peer_list_get_all-entries (suc max) g)

-- After peer_list_init and any sequence of add, remove, update_load, touch and reap calls, where
-- added addresses have at most 15 characters, peer_list_get_all with room for 64 entries shows, up
-- to order, the directory that the calls make of an empty one: add brings the entry of its address
-- up to date, or makes one while there are fewer than 64, update_load and touch write the entry of
-- their address, remove drops it, and reap drops the entries not seen for more than 30 seconds.
pub peer_list_get_all-run_peers :
    (cs : List PeerCall)
    → All CallFits cs
    → Quot.mk (peer_list_get_all max_peers (run_peers cs peer_list_init))
      ≡ run_directory cs (Quot.mk [])
unfolding view entries peer_list_init zero_peer
peer_list_get_all-run_peers cs l =
    let g = run_peers cs peer_list_init in
    let t = run_peers-init-IsTable cs l in
    ap Quot.mk (peer_list_get_all-entries max_peers g (omega (arith, length-entries-le g, t.size)))
    ∙ view-run_peers_from cs peer_list_init l peer_list_init-IsTable
