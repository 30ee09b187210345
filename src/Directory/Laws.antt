-- ===== src/Directory/Laws.antt =====
-- The calls on entries respect the directory, so they are calls on directories.
use mathlib.Core.Quot
use mathlib.Core.Quot.{Quot, Quot-set}
use socket_project.Prelude.{
  ◌≡◌, refl, sym, ◌∙◌, Bool, true, ◌&&◌, not, inl, inr, List, [], ◌∷◌, ltb, length, arith,
  Bool-cases,
}
use socket_project.Wire.{Bytes}
use socket_project.PeerList.{PeerInfo, Peers, max_peers, announced, load_reported, seen}
use socket_project.PeerList.Slots.{added}
use socket_project.PeerList.Table.{PeerCall, adds, removes, updates_load, touches, reaps}
use socket_project.Directory.{
  count_if, SameEntries, Directory, is_named, is_listed, at_name, update_named, drop_if, is_old,
  call_entries,
}

count_if-update_named :
    (ip : Bytes) (f : PeerInfo → PeerInfo) (test : PeerInfo → Bool) (l : Peers)
    → count_if test (update_named ip f l) ≡ count_if (λ p. test (at_name ip f p)) l
unfolding count_if update_named
count_if-update_named ip f test [] = refl
count_if-update_named ip f test (p ∷ l) = omega (arith, count_if-update_named ip f test l)

count_if-drop_if :
    (drops test : PeerInfo → Bool) (l : Peers)
    → count_if test (drop_if drops l) ≡ count_if (λ p. not (drops p) && test p) l
unfolding count_if drop_if
count_if-drop_if drops test [] = refl
count_if-drop_if drops test (p ∷ l) = ground (arith, count_if-drop_if drops test l)

length-count_if : (l : Peers) → length l ≡ count_if (λ p. true) l
unfolding count_if
length-count_if [] = refl
length-count_if (p ∷ l) = omega (arith, length-count_if l)

update_named-SameEntries :
    (ip : Bytes) (f : PeerInfo → PeerInfo) (xs ys : Peers)
    → SameEntries xs ys
    → SameEntries (update_named ip f xs) (update_named ip f ys)
update_named-SameEntries ip f xs ys h test =
    count_if-update_named ip f test xs
    ∙ h (λ p. test (at_name ip f p))
    ∙ sym (count_if-update_named ip f test ys)

drop_if-SameEntries :
    (drops : PeerInfo → Bool) (xs ys : Peers)
    → SameEntries xs ys
    → SameEntries (drop_if drops xs) (drop_if drops ys)
drop_if-SameEntries drops xs ys h test =
    count_if-drop_if drops test xs
    ∙ h (λ p. not (drops p) && test p)
    ∙ sym (count_if-drop_if drops test ys)

cons-SameEntries :
    (p : PeerInfo) (xs ys : Peers) → SameEntries xs ys → SameEntries (p ∷ xs) (p ∷ ys)
unfolding count_if
cons-SameEntries p xs ys h test = omega (arith, h test)

pub call_entries-SameEntries :
    (c : PeerCall) (xs ys : Peers)
    → SameEntries xs ys
    → SameEntries (call_entries c xs) (call_entries c ys)
unfolding call_entries is_listed
call_entries-SameEntries (adds ip port now) xs ys h =
    let l : length xs ≡ length ys = length-count_if xs ∙ h (λ p. true) ∙ sym (length-count_if ys) in
    rw (h (is_named ip), l)
      (elim (Bool-cases (ltb 0 (count_if (is_named ip) ys))) [
        | inl listed ↦ rw listed (update_named-SameEntries ip (announced port now) xs ys h)
        | inr new ↦ elim (Bool-cases (ltb (length ys) max_peers)) [
          | inl room ↦ rw (new, room) (cons-SameEntries (added ip port now) xs ys h)
          | inr full ↦ rw (new, full) h
        ]
      ])
call_entries-SameEntries (removes ip) xs ys h = drop_if-SameEntries (is_named ip) xs ys h
call_entries-SameEntries (updates_load ip resp now) xs ys h =
    update_named-SameEntries ip (load_reported resp now) xs ys h
call_entries-SameEntries (touches ip now) xs ys h = update_named-SameEntries ip (seen now) xs ys h
call_entries-SameEntries (reaps now) xs ys h = drop_if-SameEntries (is_old now) xs ys h

unfoldable pub call_directory : PeerCall → Directory → Directory
call_directory c =
    Quot.lift Quot-set (λ l. Quot.mk (call_entries c l))
      (λ xs ys h. Quot.sound (call_entries-SameEntries c xs ys h))

unfoldable pub run_directory : List PeerCall → Directory → Directory
run_directory [] d = d
run_directory (c ∷ cs) d = run_directory cs (call_directory c d)
