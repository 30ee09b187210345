-- ===== src/Directory/Entries.antt =====
-- The slots in use of a peer table, after each function of peer_list.c.
use socket_project.Prelude.{
  ℕ, ◌+◌, ◌≤◌, ◌≡◌, refl, sym, ap, ◌∙◌, Bool, true, false, inl, inr, [], ◌∷◌, ◌++◌, arith,
}
use socket_project.Wire.{Bytes}
use socket_project.PeerList.{
  PeerInfo, Peers, matches, find_slot, zero_peer, is_stale, peer_list_remove, peer_list_reap_stale,
}
use socket_project.PeerList.Slots.{
  count, count-append, first_slot-SlotFound, modify-Found, count-of_misses,
}
use socket_project.PeerList.Table.{KeepsName}
use socket_project.PeerList.Lookup.{updated}
use socket_project.Directory.{count_if, is_named, at_name, update_named, drop_if, is_old, entries}

entries-append : (xs ys : Peers) → entries (xs ++ ys) ≡ entries xs ++ entries ys
unfolding entries
entries-append [] ys = refl
entries-append (p ∷ xs) ys = ground (arith, entries-append xs ys)

update_named-append :
    (ip : Bytes) (f : PeerInfo → PeerInfo) (xs ys : Peers)
    → update_named ip f (xs ++ ys) ≡ update_named ip f xs ++ update_named ip f ys
unfolding update_named
update_named-append ip f [] ys = refl
update_named-append ip f (p ∷ xs) ys = ap (◌∷◌ (at_name ip f p)) (update_named-append ip f xs ys)

drop_if-append :
    (drops : PeerInfo → Bool) (xs ys : Peers)
    → drop_if drops (xs ++ ys) ≡ drop_if drops xs ++ drop_if drops ys
unfolding drop_if
drop_if-append drops [] ys = refl
drop_if-append drops (p ∷ xs) ys = ground (arith, drop_if-append drops xs ys)

-- Entries of no slot that answers to the address are left alone.
update_named_none :
    (ip : Bytes) (f : PeerInfo → PeerInfo) (g : Peers)
    → count ip g ≡ 0
    → update_named ip f (entries g) ≡ entries g
unfolding update_named entries count matches is_named
update_named_none ip f [] h = refl
update_named_none ip f (p ∷ g) h = ground (arith, update_named_none ip f g)

drop_named_none :
    (ip : Bytes) (g : Peers) → count ip g ≡ 0 → drop_if (is_named ip) (entries g) ≡ entries g
unfolding drop_if entries count matches is_named
drop_named_none ip [] h = refl
drop_named_none ip (p ∷ g) h = ground (arith, drop_named_none ip g)

pub count_if-entries : (ip : Bytes) (g : Peers) → count_if (is_named ip) (entries g) ≡ count ip g
unfolding count_if entries count matches is_named
count_if-entries ip [] = refl
count_if-entries ip (p ∷ g) = ground (arith, count_if-entries ip g)

pub entries_valid :
    (front back : Peers) (p : PeerInfo)
    → p.valid ≡ true
    → entries (front ++ p ∷ back) ≡ entries front ++ (p ∷ entries back)
unfolding entries
entries_valid front back p v = entries-append front (p ∷ back) ∙ rw v refl

pub entries_free :
    (front back : Peers) (p : PeerInfo)
    → p.valid ≡ false
    → entries (front ++ p ∷ back) ≡ entries front ++ entries back
unfolding entries
entries_free front back p v = entries-append front (p ∷ back) ∙ rw v refl

-- A slot that answers to the address is the only one.
alone :
    (ip : Bytes) (front back : Peers) (p : PeerInfo)
    → matches ip p ≡ true
    → count ip (front ++ p ∷ back) ≤ 1
    → (count ip front ≡ 0) × (count ip back ≡ 0)
unfolding count
alone ip front back p h u =
    let e : count ip (front ++ p ∷ back) ≡ count ip front + (1 + count ip back) =
      count-append ip front (p ∷ back) ∙ rw h refl in
    (omega arith, omega arith)

matches_here :
    (ip : Bytes) (p : PeerInfo) → matches ip p ≡ true → (p.valid ≡ true) × (is_named ip p ≡ true)
unfolding matches is_named
matches_here ip p h = (ground arith, ground arith)

update_middle :
    (ip : Bytes) (f : PeerInfo → PeerInfo) (p : PeerInfo) (xs ys : Peers)
    → is_named ip p ≡ true
    → update_named ip f xs ≡ xs
    → update_named ip f ys ≡ ys
    → update_named ip f xs ++ update_named ip f (p ∷ ys) ≡ xs ++ (f p ∷ ys)
unfolding update_named
update_middle ip f p xs ys n ex ey = rw (ex, n, ey) refl

drop_middle :
    (ip : Bytes) (p : PeerInfo) (xs ys : Peers)
    → is_named ip p ≡ true
    → drop_if (is_named ip) xs ≡ xs
    → drop_if (is_named ip) ys ≡ ys
    → drop_if (is_named ip) xs ++ drop_if (is_named ip) (p ∷ ys) ≡ xs ++ ys
unfolding drop_if
drop_middle ip p xs ys n ex ey = rw (ex, n, ey) refl

-- An assignment to the fields of the slot that answers to `ip`.
pub entries-updated :
    (ip : Bytes) (f : PeerInfo → PeerInfo) (g : Peers)
    → KeepsName f
    → count ip g ≤ 1
    → entries (updated ip g f) ≡ update_named ip f (entries g)
unfolding find_slot KeepsName
entries-updated ip f g keep u = elim (first_slot-SlotFound (matches ip) g) [
  | inl (e, h) ↦ rw (e, updated) (sym (update_named_none ip f g (count-of_misses ip g h)))
  | inr (j, e, found) ↦
      let p = found.here in
      let (v, n) = matches_here ip p found.passes in
      let w = found.whole in
      let (zf, zb) = alone ip found.front found.back p found.passes (rw w at u) in
      rw (e, updated, modify-Found found f)
        (entries_valid found.front found.back (f p) ((keep p).1 ∙ v)
          ∙ sym (
              ap (λ u. update_named ip f (entries u)) w
              ∙ ap (update_named ip f) (entries_valid found.front found.back p v)
              ∙ update_named-append ip f (entries found.front) (p ∷ entries found.back)
              ∙ update_middle ip f p (entries found.front) (entries found.back) n
                  (update_named_none ip f found.front zf) (update_named_none ip f found.back zb)))
]

pub entries-remove :
    (ip : Bytes) (g : Peers)
    → count ip g ≤ 1
    → entries (peer_list_remove ip g) ≡ drop_if (is_named ip) (entries g)
unfolding find_slot peer_list_remove zero_peer
entries-remove ip g u = elim (first_slot-SlotFound (matches ip) g) [
  | inl (e, h) ↦ rw (e, peer_list_remove) (sym (drop_named_none ip g (count-of_misses ip g h)))
  | inr (j, e, found) ↦
      let p = found.here in
      let (v, n) = matches_here ip p found.passes in
      let w = found.whole in
      let (zf, zb) = alone ip found.front found.back p found.passes (rw w at u) in
      rw (e, peer_list_remove, modify-Found found (λ _. zero_peer))
        (entries_free found.front found.back zero_peer refl
          ∙ sym (
              ap (λ u. drop_if (is_named ip) (entries u)) w
              ∙ ap (drop_if (is_named ip)) (entries_valid found.front found.back p v)
              ∙ drop_if-append (is_named ip) (entries found.front) (p ∷ entries found.back)
              ∙ drop_middle ip p (entries found.front) (entries found.back) n
                  (drop_named_none ip found.front zf) (drop_named_none ip found.back zb)))
]

pub entries-reap :
    (now : ℕ) (g : Peers) → entries (peer_list_reap_stale now g) ≡ drop_if (is_old now) (entries g)
unfolding entries peer_list_reap_stale is_stale drop_if is_old zero_peer
entries-reap now [] = refl
entries-reap now (p ∷ g) = ground (arith, entries-reap now g)
