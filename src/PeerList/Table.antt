-- ===== src/PeerList/Table.antt =====
-- What stays true of the peer table under every function of peer_list.c.
use socket_project.Prelude.{
  ℕ, zero, suc, ◌≤◌, ◌<◌, ◌≡◌, refl, sym, ap, ◌∙◌, ◌⊎◌, inl, inr, true, false, not, none, some,
  List, [], ◌∷◌, ◌++◌, arith, Bool-cases, length, All, length-append, length-replicate, replicate,
}
use socket_project.Wire.{Bytes}
use socket_project.PeerList.{
  PeerInfo, Peers, max_peers, inet_addrstrlen, matches, find_slot, find_free_slot, modify,
  zero_peer, announced, load_reported, seen, peer_list_init, peer_list_add, peer_list_remove,
  peer_list_update_load, peer_list_touch, peer_list_reap_stale,
}
use socket_project.PeerList.Slots.{
  count, count-append, first_slot-SlotFound, modify-Found, count-of_misses, matches→eq, added,
  added_fields, peer_list_add-eq,
}

-- `ip` fits its 16 bytes with the final NUL.
abbrev pub Fits : PeerInfo → Type 0
Fits p = length p.ip < inet_addrstrlen

pub record IsTable (g : Peers) : Type 0 where
  pub size : length g ≡ max_peers
  pub unique : (ip : Bytes) → count ip g ≤ 1
  pub named : All Fits g

All-middle :
    (front back : Peers) (p q : PeerInfo)
    → All Fits (front ++ p ∷ back)
    → Fits q
    → All Fits (front ++ q ∷ back)
All-middle [] back p q h k = (k, h.1)
All-middle (x ∷ front) back p q h k = (h.0, All-middle front back p q h.1 k)

named_middle : (front back : Peers) (p : PeerInfo) → All Fits (front ++ p ∷ back) → Fits p
named_middle [] back p h = h.0
named_middle (x ∷ front) back p h = named_middle front back p h.1

-- One slot is written; no other slot answers to its new address.
IsTable-middle :
    (front back : Peers) (p q : PeerInfo)
    → IsTable (front ++ p ∷ back)
    → Fits q
    → ((ip : Bytes)
        → matches ip q ≡ true
        → (matches ip p ≡ true) ⊎ (count ip (front ++ p ∷ back) ≡ 0))
    → IsTable (front ++ q ∷ back)
unfolding count
IsTable-middle front back p q t k h = record {
  size = omega (arith, t.size, length-append front (p ∷ back), length-append front (q ∷ back));
  unique = λ ip. elim (Bool-cases (matches ip q)) [
    | inl hit ↦ ground (
      arith,
      t.unique ip,
      h ip hit,
      count-append ip front (p ∷ back),
      count-append ip front (q ∷ back),
    )
    | inr miss ↦
        ground
          (arith, t.unique ip, count-append ip front (p ∷ back), count-append ip front (q ∷ back))
  ];
  named = All-middle front back p q t.named k;
}

count-free : (ip : Bytes) (n : ℕ) → count ip (replicate n zero_peer) ≡ 0
unfolding count matches zero_peer
count-free ip zero = refl
count-free ip (suc n) = omega (arith, count-free ip n)

named-free : (n : ℕ) → All Fits (replicate n zero_peer)
unfolding zero_peer
named-free zero = tt
named-free (suc n) = (omega arith, named-free n)

pub peer_list_init-IsTable : IsTable peer_list_init
unfolding peer_list_init
peer_list_init-IsTable = record {
  size = length-replicate max_peers zero_peer;
  unique = λ ip. omega (arith, count-free ip max_peers);
  named = named-free max_peers;
}

-- A write that keeps the address and the valid mark.
unfoldable pub KeepsName : (PeerInfo → PeerInfo) → Type 0
KeepsName f = (p : PeerInfo) → ((f p).ip ≡ p.ip) × ((f p).valid ≡ p.valid)

pub matches-KeepsName :
    (f : PeerInfo → PeerInfo) (ip : Bytes) (p : PeerInfo)
    → KeepsName f
    → matches ip (f p) ≡ matches ip p
unfolding matches KeepsName
matches-KeepsName f ip p keep = rw ((keep p).0, (keep p).1)

update-IsTable :
    (ip : Bytes) (g : Peers) (f : PeerInfo → PeerInfo)
    → KeepsName f
    → IsTable g
    → IsTable (elim (find_slot ip g) [ some idx ↦ modify g idx f | none ↦ g ])
unfolding find_slot KeepsName
update-IsTable ip g f keep t = elim (first_slot-SlotFound (matches ip) g) [
  | inl (e, _) ↦ rw e t
  | inr (j, e, found) ↦
      rw (e, modify-Found found f)
        (IsTable-middle found.front found.back found.here (f found.here) (rw found.whole at t)
          (rw (keep found.here).0
            (named_middle found.front found.back found.here (rw found.whole at t.named)))
          (λ j hit. inl (sym (matches-KeepsName f j found.here keep) ∙ hit)))
]

pub announced-KeepsName : (port now : ℕ) → KeepsName (announced port now)
unfolding announced KeepsName
announced-KeepsName port now p = (refl, refl)

-- A slot that was not valid is given to an address that no slot answers to.
fill-IsTable :
    (ip : Bytes) (g : Peers) (f : PeerInfo → PeerInfo)
    → length ip < inet_addrstrlen
    → count ip g ≡ 0
    → ((p : PeerInfo) → ((f p).ip ≡ ip) × ((f p).valid ≡ true))
    → IsTable g
    → IsTable (elim (find_free_slot g) [ some idx ↦ modify g idx f | none ↦ g ])
unfolding find_free_slot
fill-IsTable ip g f l fresh named t = elim (first_slot-SlotFound (λ p. not p.valid) g) [
  | inl (e, _) ↦ rw e t
  | inr (j, e, found) ↦
      rw (e, modify-Found found f)
        (IsTable-middle found.front found.back found.here (f found.here) (rw found.whole at t)
          (rw (named found.here).0 l)
          (λ ip' hit. inr (
            rw (← found.whole, ← (matches→eq ip' (f found.here) hit).0, (named found.here).0)
              fresh)))
]

pub peer_list_add-IsTable :
    (ip : Bytes) (port now : ℕ) (g : Peers)
    → length ip < inet_addrstrlen
    → IsTable g
    → IsTable (peer_list_add ip port now g)
unfolding find_slot
peer_list_add-IsTable ip port now g l t =
    rw (peer_list_add-eq ip port now g) (elim (first_slot-SlotFound (matches ip) g) [
      | inl (e, none_match) ↦ rw e (
          fill-IsTable ip g (λ _. added ip port now) l (count-of_misses ip g none_match)
            (λ _. added_fields ip port now l) t)
      | inr (j, e, _) ↦
          rw e (rw e at (update-IsTable ip g (announced port now) (announced-KeepsName port now) t))
    ])

pub load_reported-KeepsName : (resp : Bytes) (now : ℕ) → KeepsName (load_reported resp now)
unfolding load_reported KeepsName
load_reported-KeepsName resp now p = (refl, refl)

pub peer_list_update_load-IsTable :
    (ip resp : Bytes) (now : ℕ) (g : Peers)
    → IsTable g
    → IsTable (peer_list_update_load ip resp now g)
unfolding peer_list_update_load
peer_list_update_load-IsTable ip resp now g t =
    update-IsTable ip g (load_reported resp now) (load_reported-KeepsName resp now) t

pub seen-KeepsName : (now : ℕ) → KeepsName (seen now)
unfolding seen KeepsName
seen-KeepsName now p = (refl, refl)

pub peer_list_touch-IsTable :
    (ip : Bytes) (now : ℕ) (g : Peers) → IsTable g → IsTable (peer_list_touch ip now g)
unfolding peer_list_touch
peer_list_touch-IsTable ip now g t = update-IsTable ip g (seen now) (seen-KeepsName now) t

pub zero_peer-matches : (ip : Bytes) → matches ip zero_peer ≡ false
unfolding matches zero_peer
zero_peer-matches ip = refl

zero_peer-Fits : Fits zero_peer
unfolding zero_peer
zero_peer-Fits = omega arith

pub peer_list_remove-IsTable :
    (ip : Bytes) (g : Peers) → IsTable g → IsTable (peer_list_remove ip g)
unfolding peer_list_remove find_slot
peer_list_remove-IsTable ip g t = elim (first_slot-SlotFound (matches ip) g) [
  | inl (e, _) ↦ rw (e, peer_list_remove) t
  | inr (j, e, found) ↦
      rw (e, peer_list_remove, modify-Found found (λ _. zero_peer))
        (IsTable-middle found.front found.back found.here zero_peer (rw found.whole at t)
          zero_peer-Fits (λ ip' hit. cc (zero_peer-matches ip')))
]

reap_count : (ip : Bytes) (now : ℕ) (g : Peers) → count ip (peer_list_reap_stale now g) ≤ count ip g
unfolding count peer_list_reap_stale
reap_count ip now [] = omega arith
reap_count ip now (p ∷ g) = ground (arith, zero_peer-matches ip, reap_count ip now g)

length-reap : (now : ℕ) (g : Peers) → length (peer_list_reap_stale now g) ≡ length g
unfolding peer_list_reap_stale
length-reap now [] = refl
length-reap now (p ∷ g) = ap suc (length-reap now g)

named-reap : (now : ℕ) (g : Peers) → All Fits g → All Fits (peer_list_reap_stale now g)
unfolding peer_list_reap_stale
named-reap now [] h = tt
named-reap now (p ∷ g) h = ground (arith, zero_peer-Fits, named-reap now g h.1)

pub peer_list_reap_stale-IsTable :
    (now : ℕ) (g : Peers) → IsTable g → IsTable (peer_list_reap_stale now g)
peer_list_reap_stale-IsTable now g t = record {
  size = length-reap now g ∙ t.size;
  unique = λ ip. omega (arith, reap_count ip now g, t.unique ip);
  named = named-reap now g t.named;
}

-- A history of the table: each entry is one call of peer_list.c.
pub data PeerCall : Type 0 where
  adds : Bytes → ℕ → ℕ → PeerCall
  removes : Bytes → PeerCall
  updates_load : Bytes → Bytes → ℕ → PeerCall
  touches : Bytes → ℕ → PeerCall
  reaps : ℕ → PeerCall

unfoldable pub call_peers : PeerCall → Peers → Peers
call_peers (adds ip port now) = peer_list_add ip port now
call_peers (removes ip) = peer_list_remove ip
call_peers (updates_load ip resp now) = peer_list_update_load ip resp now
call_peers (touches ip now) = peer_list_touch ip now
call_peers (reaps now) = peer_list_reap_stale now

unfoldable pub run_peers : List PeerCall → Peers → Peers
run_peers [] g = g
run_peers (c ∷ cs) g = run_peers cs (call_peers c g)

-- Addresses that are added fit their field, as those that `inet_ntop` writes do.
abbrev pub CallFits : PeerCall → Type 0
CallFits (adds ip port now) = length ip < inet_addrstrlen
CallFits _ = Unit {0}

pub call_peers-IsTable :
    (c : PeerCall) (g : Peers) → CallFits c → IsTable g → IsTable (call_peers c g)
unfolding call_peers
call_peers-IsTable (adds ip port now) g l t = peer_list_add-IsTable ip port now g l t
call_peers-IsTable (removes ip) g l t = peer_list_remove-IsTable ip g t
call_peers-IsTable (updates_load ip resp now) g l t = peer_list_update_load-IsTable ip resp now g t
call_peers-IsTable (touches ip now) g l t = peer_list_touch-IsTable ip now g t
call_peers-IsTable (reaps now) g l t = peer_list_reap_stale-IsTable now g t

run_peers-IsTable :
    (cs : List PeerCall) (g : Peers) → All CallFits cs → IsTable g → IsTable (run_peers cs g)
unfolding run_peers
run_peers-IsTable [] g l t = t
run_peers-IsTable (c ∷ cs) g l t =
    run_peers-IsTable cs (call_peers c g) l.1 (call_peers-IsTable c g l.0 t)

-- After peer_list_init and any sequence of add, remove, update_load, touch and reap calls, where
-- added addresses have at most 15 characters, the table has 64 slots, no address is in two valid
-- slots, and every address ends within its field.
pub run_peers-init-IsTable :
    (cs : List PeerCall) → All CallFits cs → IsTable (run_peers cs peer_list_init)
run_peers-init-IsTable cs l = run_peers-IsTable cs peer_list_init l peer_list_init-IsTable
