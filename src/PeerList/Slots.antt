-- ===== src/PeerList/Slots.antt =====
-- The slot loops of peer_list.c: what they find, and what a write there changes.
use socket_project.Prelude.{
  ℕ, zero, suc, ◌+◌, ◌≡◌, ◌≢◌, refl, ap, ◌∙◌, ◌⊎◌, inl, inr, Bool, true, false, Option, none, some,
  [], ◌∷◌, ◌++◌, arith, if◌then◌else◌, Bool-cases, Option-cases, length, All, take-all, ◌<◌, ◌-◌,
}
use socket_project.Wire.{Bytes}
use socket_project.Wire.Codec.{strcmp_eq_refl, strcmp_eq→eq, strcmp_eq-of_ne}
use socket_project.PeerList.{
  PeerInfo, Peers, inet_addrstrlen, matches, first_slot, find_slot, find_free_slot, modify,
  announced, new_peer, peer_list_add,
}

-- How many slots answer to an address.
unfoldable pub count : Bytes → Peers → ℕ
count ip [] = 0
count ip (p ∷ ps) = (if matches ip p then 1 else 0) + count ip ps

-- The table as a map: the entry for an address.
unfoldable pub peer_of : Bytes → Peers → Option PeerInfo
peer_of ip [] = none
peer_of ip (p ∷ ps) = if matches ip p then some p else peer_of ip ps

abbrev pub or_else {ℓ} : {A : Type ℓ} → Option A → Option A → Option A
or_else (some a) b = some a
or_else none b = b

pub peer_of-append :
    (ip : Bytes) (xs ys : Peers) → peer_of ip (xs ++ ys) ≡ or_else (peer_of ip xs) (peer_of ip ys)
unfolding peer_of
peer_of-append ip [] ys = refl
peer_of-append ip (p ∷ xs) ys = ground (arith, peer_of-append ip xs ys)

pub count-append : (ip : Bytes) (xs ys : Peers) → count ip (xs ++ ys) ≡ count ip xs + count ip ys
unfolding count
count-append ip [] ys = omega arith
count-append ip (p ∷ xs) ys = omega (arith, count-append ip xs ys)

pub peer_of-none : (ip : Bytes) (xs : Peers) → count ip xs ≡ 0 → peer_of ip xs ≡ none
unfolding count peer_of
peer_of-none ip [] h = refl
peer_of-none ip (p ∷ xs) h = ground (arith, peer_of-none ip xs)

none-count : (ip : Bytes) (xs : Peers) → peer_of ip xs ≡ none → count ip xs ≡ 0
unfolding count peer_of
none-count ip [] h = refl
none-count ip (p ∷ xs) h = ground (arith, none-count ip xs)

-- The loop stops at the first slot that passes the test, and the table falls in three there.
pub record Found (test : PeerInfo → Bool) (ps : Peers) (j : ℕ) : Type 0 where
  pub front : Peers
  pub here : PeerInfo
  pub back : Peers
  pub whole : ps ≡ front ++ here ∷ back
  pub index : length front ≡ j
  pub passes : test here ≡ true
  pub before : All (λ p. test p ≡ false) front

abbrev pub Search : (PeerInfo → Bool) → Peers → Option ℕ → ℕ → Type 0
Search test ps r i =
    ((r ≡ none) × All (λ p. test p ≡ false) ps) ⊎ ((j : ℕ) × (r ≡ some (i + j)) × Found test ps j)

first_slot_hit :
    (test : PeerInfo → Bool) (i : ℕ) (p : PeerInfo) (ps : Peers)
    → test p ≡ true
    → first_slot test i (p ∷ ps) ≡ some i
unfolding first_slot
first_slot_hit test i p ps h = rw (h, first_slot)

first_slot_miss :
    (test : PeerInfo → Bool) (i : ℕ) (p : PeerInfo) (ps : Peers)
    → test p ≡ false
    → first_slot test i (p ∷ ps) ≡ first_slot test (suc i) ps
unfolding first_slot
first_slot_miss test i p ps h = rw (h, first_slot)

first_slot-Search :
    (test : PeerInfo → Bool) (i : ℕ) (ps : Peers) → Search test ps (first_slot test i ps) i
unfolding first_slot
first_slot-Search test i [] = inl (refl, tt)
first_slot-Search test i (p ∷ ps) = elim (Bool-cases (test p)) [
  | inl hit ↦ inr (
    0,
    first_slot_hit test i p ps hit ∙ ap some (omega arith),
    record {
      front = [];
      here = p;
      back = ps;
      whole = refl;
      index = refl;
      passes = hit;
      before = tt;
    },
  )
  | inr miss ↦ elim (first_slot-Search test (suc i) ps) [
    | inl (e, all) ↦ inl (first_slot_miss test i p ps miss ∙ e, (miss, all))
    | inr (j, e, f) ↦ inr (
      suc j,
      first_slot_miss test i p ps miss ∙ e ∙ ap some (omega arith),
      record {
        front = p ∷ f.front;
        here = f.here;
        back = f.back;
        whole = ap (◌∷◌ p) f.whole;
        index = ap suc f.index;
        passes = f.passes;
        before = (miss, f.before);
      },
    )
  ]
]

modify_middle :
    (front back : Peers) (p : PeerInfo) (j : ℕ) (f : PeerInfo → PeerInfo)
    → length front ≡ j
    → modify (front ++ p ∷ back) j f ≡ front ++ f p ∷ back
unfolding modify
modify_middle [] back p zero f e = refl
modify_middle [] back p (suc j) f e = absurd (omega arith)
modify_middle (x ∷ front) back p zero f e = absurd (omega arith)
modify_middle (x ∷ front) back p (suc j) f e =
    ap (◌∷◌ x) (modify_middle front back p j f (omega arith))

pub count-of_misses :
    (ip : Bytes) (ps : Peers) → All (λ p. matches ip p ≡ false) ps → count ip ps ≡ 0
unfolding count
count-of_misses ip [] h = refl
count-of_misses ip (p ∷ ps) h = rw h.0 (omega (arith, count-of_misses ip ps h.1))

pub matches→eq : (ip : Bytes) (p : PeerInfo) → matches ip p ≡ true → (p.ip ≡ ip) × (p.valid ≡ true)
unfolding matches
matches→eq ip p h = (strcmp_eq→eq p.ip ip (ground arith), ground arith)

pub matches_valid : (ip : Bytes) (p : PeerInfo) → p.ip ≡ ip → p.valid ≡ true → matches ip p ≡ true
unfolding matches
matches_valid ip p e v = rw (v, e) (strcmp_eq_refl ip)

pub matches_other : (ip : Bytes) (p : PeerInfo) → p.ip ≢ ip → matches ip p ≡ false
unfolding matches
matches_other ip p h = ground (arith, strcmp_eq-of_ne p.ip ip h)

pub matches_free : (ip : Bytes) (p : PeerInfo) → p.valid ≡ false → matches ip p ≡ false
unfolding matches
matches_free ip p v = rw v

abbrev pub SlotFound : (PeerInfo → Bool) → Peers → Option ℕ → Type 0
SlotFound test ps r =
    ((r ≡ none) × All (λ p. test p ≡ false) ps) ⊎ ((j : ℕ) × (r ≡ some j) × Found test ps j)

pub first_slot-SlotFound :
    (test : PeerInfo → Bool) (ps : Peers) → SlotFound test ps (first_slot test 0 ps)
first_slot-SlotFound test ps = elim (first_slot-Search test 0 ps) [
  | inl h ↦ inl h
  | inr (j, e, f) ↦ inr (j, e ∙ ap some (omega arith), f)
]

-- A write to the slot that was found.
pub modify-Found :
    {test : PeerInfo → Bool} {ps : Peers} {j : ℕ} (found : Found test ps j)
    (f : PeerInfo → PeerInfo)
    → modify ps j f ≡ found.front ++ f found.here ∷ found.back
modify-Found {j = j} found f =
    ap (λ ps. modify ps j f) found.whole
    ∙ modify_middle found.front found.back found.here j f found.index

modify-modify :
    (g : Peers) (i : ℕ) (f h : PeerInfo → PeerInfo)
    → modify (modify g i f) i h ≡ modify g i (λ p. h (f p))
unfolding modify
modify-modify [] i f h = refl
modify-modify (p ∷ ps) zero f h = refl
modify-modify (p ∷ ps) (suc i) f h = ap (◌∷◌ p) (modify-modify ps i f h)

-- `peer_list_add` as one write.
unfoldable pub added : Bytes → ℕ → ℕ → PeerInfo
added ip port now = announced port now (new_peer ip)

pub peer_list_add-eq :
    (ip : Bytes) (port now : ℕ) (g : Peers)
    → peer_list_add ip port now g ≡ elim (find_slot ip g) [
      | some idx ↦ modify g idx (announced port now)
      | none ↦ elim (find_free_slot g) [
        | some idx ↦ modify g idx (λ _. added ip port now)
        | none ↦ g
      ]
    ]
unfolding peer_list_add added
peer_list_add-eq ip port now g = elim (Option-cases (find_slot ip g)) [
  | inr (i, e) ↦ rw (e, peer_list_add)
  | inl e ↦ elim (Option-cases (find_free_slot g)) [
    | inl e' ↦ rw (e, peer_list_add, e')
    | inr (i, e') ↦
        rw (e, peer_list_add, e') (modify-modify g i (λ _. new_peer ip) (announced port now))
  ]
]

pub added_fields :
    (ip : Bytes) (port now : ℕ)
    → length ip < inet_addrstrlen
    → ((added ip port now).ip ≡ ip) × ((added ip port now).valid ≡ true)
unfolding added announced new_peer
added_fields ip port now h = (take-all (inet_addrstrlen - 1) ip (omega arith), refl)
