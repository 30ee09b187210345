-- ===== src/PeerList/Lookup.antt =====
-- peer_list.c refines a map from addresses to entries with room for 64: each function of the source
-- by the equation that the map operation has.
use mathlib.Core.Option
use socket_project.Prelude.{
  ℕ, ◌≡◌, ◌≢◌, sym, ap, ◌∙◌, inl, inr, true, false, none, some, ◌∷◌, ◌++◌, arith, if◌then◌else◌,
  Bool-cases, All,
}
use socket_project.Wire.{Bytes, strcmp_eq}
use socket_project.Wire.Codec.{strcmp_eq_refl, strcmp_eq→eq}
use socket_project.PeerList.{
  PeerInfo, Peers, matches, find_slot, modify, zero_peer, load_reported, seen, peer_list_remove,
  peer_list_update_load, peer_list_touch,
}
use socket_project.PeerList.Slots.{
  count, peer_of, peer_of-append, count-append, peer_of-none, first_slot-SlotFound, modify-Found,
  count-of_misses, matches→eq, matches_other,
}
use socket_project.PeerList.Table.{
  IsTable, KeepsName, matches-KeepsName, load_reported-KeepsName, seen-KeepsName, zero_peer-matches,
}

pub peer_of_misses :
    (ip : Bytes) (ps : Peers) → All (λ p. matches ip p ≡ false) ps → peer_of ip ps ≡ none
peer_of_misses ip ps h = peer_of-none ip ps (count-of_misses ip ps h)

pub peer_of-hit :
    (ip : Bytes) (front back : Peers) (p : PeerInfo)
    → peer_of ip front ≡ none
    → matches ip p ≡ true
    → peer_of ip (front ++ p ∷ back) ≡ some p
unfolding peer_of
peer_of-hit ip front back p h m = rw (peer_of-append ip front (p ∷ back), h, m)

pub peer_of-skip :
    (ip : Bytes) (front back : Peers) (p : PeerInfo)
    → matches ip p ≡ false
    → peer_of ip (front ++ p ∷ back) ≡ peer_of ip (front ++ back)
unfolding peer_of
peer_of-skip ip front back p m =
    rw (peer_of-append ip front (p ∷ back), m, peer_of-append ip front back)

pub unequal : (a b : Bytes) → strcmp_eq a b ≡ false → a ≢ b
unequal a b h e = let same : strcmp_eq a b ≡ true = rw e (strcmp_eq_refl b) in cc

module _ (ip : Bytes) (g : Peers) (f : PeerInfo → PeerInfo) where
  abbrev pub updated : Peers
  updated = elim (find_slot ip g) [ some idx ↦ modify g idx f | none ↦ g ]

  updated_self : KeepsName f → peer_of ip updated ≡ Option.map f (peer_of ip g)
  unfolding find_slot
  updated_self keep = elim (first_slot-SlotFound (matches ip) g) [
    | inl (e, h) ↦ rw (e, updated, peer_of_misses ip g h)
    | inr (j, e, found) ↦
        let before : peer_of ip found.front ≡ none = peer_of_misses ip found.front found.before in
        let old : peer_of ip g ≡ some found.here =
          ap (peer_of ip) found.whole
          ∙ peer_of-hit ip found.front found.back found.here before found.passes in
        rw (e, updated, modify-Found found f, old)
          (peer_of-hit ip found.front found.back (f found.here) before
            (matches-KeepsName f ip found.here keep ∙ found.passes))
  ]

  updated_other :
      (j : Bytes)
      → ip ≢ j
      → ((p : PeerInfo) → matches ip p ≡ true → matches j (f p) ≡ false)
      → peer_of j updated ≡ peer_of j g
  unfolding find_slot
  updated_other j ne keep = elim (first_slot-SlotFound (matches ip) g) [
    | inl (e, h) ↦ rw (e, updated)
    | inr (i, e, found) ↦
        let here_ip : found.here.ip ≡ ip = (matches→eq ip found.here found.passes).0 in
        let old : matches j found.here ≡ false =
          matches_other j found.here (λ same. ne (sym here_ip ∙ same)) in
        rw (e, updated, modify-Found found f)
          (peer_of-skip j found.front found.back (f found.here) (keep found.here found.passes)
            ∙ sym
                (ap (peer_of j) found.whole ∙ peer_of-skip j found.front found.back found.here old))
  ]

  -- A write that keeps the address, as an update of the map.
  pub updated-peer_of :
      (j : Bytes)
      → KeepsName f
      → peer_of j updated ≡ (if strcmp_eq ip j then Option.map f (peer_of ip g) else peer_of j g)
  updated-peer_of j keep = elim (Bool-cases (strcmp_eq ip j)) [
    | inl same ↦ rw (same, ← strcmp_eq→eq ip j same) (updated_self keep)
    | inr other ↦ rw other (
        updated_other j (unequal ip j other) (λ p m.
          matches-KeepsName f j p keep
          ∙ matches_other j p (λ e. unequal ip j other (sym (matches→eq ip p m).0 ∙ e))))
  ]

removed_self : (ip : Bytes) (g : Peers) → IsTable g → peer_of ip (peer_list_remove ip g) ≡ none
unfolding peer_list_remove find_slot count
removed_self ip g t = elim (first_slot-SlotFound (matches ip) g) [
  | inl (e, h) ↦ rw (e, peer_list_remove) (peer_of_misses ip g h)
  | inr (j, e, found) ↦
      rw (e, peer_list_remove, modify-Found found (λ _. zero_peer))
        (peer_of-none ip (found.front ++ zero_peer ∷ found.back) (
          ground (
            arith,
            t.unique ip,
            ap (count ip) found.whole,
            count-append ip found.front (found.here ∷ found.back),
            count-append ip found.front (zero_peer ∷ found.back),
            count-of_misses ip found.front found.before,
            found.passes,
            zero_peer-matches ip,
          )))
]

-- peer_list_update_load overwrites the load fields and the time of the entry of its address, if
-- there is one, and leaves the entry of every other address as it was.
pub peer_list_update_load-peer_of :
    (ip resp : Bytes) (now : ℕ) (g : Peers) (j : Bytes)
    → peer_of j (peer_list_update_load ip resp now g)
      ≡ (if strcmp_eq ip j then Option.map (load_reported resp now) (peer_of ip g) else peer_of j g)
unfolding peer_list_update_load
peer_list_update_load-peer_of ip resp now g j =
    updated-peer_of ip g (load_reported resp now) j (load_reported-KeepsName resp now)

pub peer_list_touch-peer_of :
    (ip : Bytes) (now : ℕ) (g : Peers) (j : Bytes)
    → peer_of j (peer_list_touch ip now g)
      ≡ (if strcmp_eq ip j then Option.map (seen now) (peer_of ip g) else peer_of j g)
unfolding peer_list_touch
peer_list_touch-peer_of ip now g j = updated-peer_of ip g (seen now) j (seen-KeepsName now)

-- On a sound table, peer_list_remove deletes the entry of its address and leaves the entry of
-- every other address as it was.
pub peer_list_remove-peer_of :
    (ip : Bytes) (g : Peers) (j : Bytes)
    → IsTable g
    → peer_of j (peer_list_remove ip g) ≡ (if strcmp_eq ip j then none else peer_of j g)
unfolding peer_list_remove
peer_list_remove-peer_of ip g j t = elim (Bool-cases (strcmp_eq ip j)) [
  | inl same ↦ rw (same, ← strcmp_eq→eq ip j same) (removed_self ip g t)
  | inr other ↦
      rw other
        (updated_other ip g (λ _. zero_peer) j (unequal ip j other) (λ p m. zero_peer-matches j))
]
