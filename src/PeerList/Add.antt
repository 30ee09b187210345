-- ===== src/PeerList/Add.antt =====
-- `peer_list_add` as an insertion into a map with room for 64 entries.
use socket_project.Prelude.{
  ℕ, ◌+◌, ◌≤◌, ◌<◌, ◌≡◌, ◌≢◌, refl, sym, ap, ◌∙◌, inl, inr, Bool, true, false, not, Option, none,
  some, [], ◌∷◌, ◌++◌, arith, ltb, if◌then◌else◌, Bool-cases, length, All, length-append,
}
use socket_project.Wire.{Bytes, strcmp_eq}
use socket_project.Wire.Codec.{strcmp_eq→eq}
use socket_project.PeerList.{
  PeerInfo, Peers, max_peers, inet_addrstrlen, matches, find_slot, find_free_slot, modify,
  announced, peer_list_add,
}
use socket_project.PeerList.Slots.{
  peer_of, peer_of-append, first_slot-SlotFound, modify-Found, matches_valid, matches_other,
  matches_free, added, added_fields, peer_list_add-eq,
}
use socket_project.PeerList.Table.{IsTable, announced-KeepsName}
use socket_project.PeerList.Lookup.{
  unequal, peer_of_misses, peer_of-hit, peer_of-skip, updated, updated-peer_of,
}

-- Slots in use.
unfoldable pub used : Peers → ℕ
used [] = 0
used (p ∷ ps) = (if p.valid then 1 else 0) + used ps

used-append : (xs ys : Peers) → used (xs ++ ys) ≡ used xs + used ys
unfolding used
used-append [] ys = omega arith
used-append (p ∷ xs) ys = omega (arith, used-append xs ys)

pub used-le : (ps : Peers) → used ps ≤ length ps
unfolding used
used-le [] = omega arith
used-le (p ∷ ps) = ground (arith, used-le ps)

used_full : (ps : Peers) → All (λ p. not p.valid ≡ false) ps → used ps ≡ length ps
unfolding used
used_full [] h = refl
used_full (p ∷ ps) h = ground (arith, used_full ps h.1, h.0)

used_room :
    (front back : Peers) (p : PeerInfo)
    → p.valid ≡ false
    → used (front ++ p ∷ back) < length (front ++ p ∷ back)
unfolding used
used_room front back p h = ground (
  arith,
  used-append front (p ∷ back),
  length-append front (p ∷ back),
  used-le front,
  used-le back,
)

-- The entry after an announcement: kept and brought up to date, or new while there is room.
abbrev pub entry_after : Bytes → ℕ → ℕ → Option PeerInfo → Bool → Option PeerInfo
entry_after ip port now (some p) room = some (announced port now p)
entry_after ip port now none room = if room then some (added ip port now) else none

front_fresh :
    (ip : Bytes) (front rest : Peers) → peer_of ip (front ++ rest) ≡ none → peer_of ip front ≡ none
front_fresh ip front rest h = ground (arith, peer_of-append ip front rest)

module _ (ip : Bytes) (port now : ℕ) (g : Peers) (l : length ip < inet_addrstrlen) where
  abbrev filled : Peers
  filled = elim (find_free_slot g) [ some idx ↦ modify g idx (λ _. added ip port now) | none ↦ g ]

  filled_self :
      peer_of ip g ≡ none
      → peer_of ip filled ≡ (if ltb (used g) (length g) then some (added ip port now) else none)
  unfolding find_free_slot
  filled_self fresh = elim (first_slot-SlotFound (λ p. not p.valid) g) [
    | inl (e, h) ↦
        let full : ltb (used g) (length g) ≡ false = ground (arith, used_full g h) in
        rw (e, filled, full) fresh
    | inr (i, e, found) ↦
        let free : found.here.valid ≡ false = ground arith in
        let room : ltb (used g) (length g) ≡ true = ground (
          arith,
          used_room found.front found.back found.here free,
          ap used found.whole,
          ap length found.whole,
        ) in
        let q = added_fields ip port now l in
        rw (e, filled, room, modify-Found found (λ _. added ip port now))
          (peer_of-hit ip found.front found.back (added ip port now)
            (front_fresh ip found.front (found.here ∷ found.back)
              (ap (peer_of ip) (sym found.whole) ∙ fresh))
            (matches_valid ip (added ip port now) q.0 q.1))
  ]

  filled_other : (j : Bytes) → ip ≢ j → peer_of j filled ≡ peer_of j g
  unfolding find_free_slot
  filled_other j ne = elim (first_slot-SlotFound (λ p. not p.valid) g) [
    | inl (e, h) ↦ rw (e, filled)
    | inr (i, e, found) ↦
        let free : found.here.valid ≡ false = ground arith in
        let q = added_fields ip port now l in
        rw (e, filled, modify-Found found (λ _. added ip port now))
          (peer_of-skip j found.front found.back (added ip port now)
              (matches_other j (added ip port now) (λ same. ne (sym q.0 ∙ same)))
            ∙ sym (
                ap (peer_of j) found.whole
                ∙ peer_of-skip j found.front found.back found.here
                    (matches_free j found.here free)))
  ]

  -- On a sound table, peer_list_add of an address with at most 15 characters brings that address's
  -- entry up to date, or makes a new one while fewer than 64 slots are used and none otherwise,
  -- and leaves the entry of every other address as it was.
  pub peer_list_add-peer_of :
      (j : Bytes)
      → IsTable g
      → peer_of j (peer_list_add ip port now g) ≡ (
          if strcmp_eq ip j
          then entry_after ip port now (peer_of ip g) (ltb (used g) max_peers)
          else peer_of j g)
  unfolding find_slot
  peer_list_add-peer_of j t = elim (first_slot-SlotFound (matches ip) g) [
    | inl (e, h) ↦
        let fresh = peer_of_misses ip g h in
        elim (Bool-cases (strcmp_eq ip j)) [
          | inl same ↦
              rw
                (peer_list_add-eq ip port now g, e, same, ← strcmp_eq→eq ip j same, fresh, ← t.size)
                (filled_self fresh)
          | inr other ↦
              rw (peer_list_add-eq ip port now g, e, other) (filled_other j (unequal ip j other))
        ]
    | inr (i, e, found) ↦
        let before = peer_of_misses ip found.front found.before in
        let old : peer_of ip g ≡ some found.here =
          ap (peer_of ip) found.whole
          ∙ peer_of-hit ip found.front found.back found.here before found.passes in
        rw (peer_list_add-eq ip port now g, e, old)
          (rw (e, updated, old) at
            (updated-peer_of ip g (announced port now) j (announced-KeepsName port now)))
  ]
