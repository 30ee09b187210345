-- ===== src/Presence/Calls.antt =====
-- What one call of peer_list.c by the listener or the dispatcher makes of an entry's age.
use mathlib.Core.Option
use mathlib.Core.Option.{some-injective}
use socket_project.Prelude.{
  ℕ, ◌≡◌, refl, ◌⊎◌, inl, inr, Bool, true, false, Option, none, some, arith, ltb, if◌then◌else◌,
  Bool-cases,
}
use socket_project.Wire.{Bytes, strcmp_eq}
use socket_project.PeerList.{PeerInfo, Peers, max_peers, announced, load_reported, seen}
use socket_project.Wire.Codec.{strcmp_eq→eq}
use socket_project.PeerList.Slots.{peer_of, added}
use socket_project.PeerList.Table.{
  IsTable, PeerCall, adds, removes, updates_load, touches, reaps, call_peers,
}
use socket_project.PeerList.Lookup.{
  peer_list_remove-peer_of, peer_list_update_load-peer_of, peer_list_touch-peer_of,
}
use socket_project.PeerList.Add.{peer_list_add-peer_of, entry_after, used}
use socket_project.Presence.{IsCallAt, no_bye}

-- What a call at `now` can make of an entry: it is as before, written now, or gone.
abbrev pub Ages : ℕ → Option PeerInfo → Option PeerInfo → Type 0
Ages now old none = Unit {0}
Ages now old (some q) = (q.last_seen ≡ now) ⊎ (old ≡ some q)

-- What a call that keeps an entry makes of it: it is there, as old as before or seen now.
abbrev pub Keeps : ℕ → PeerInfo → Option PeerInfo → Type 0
Keeps now p none = ⊥
Keeps now p (some q) = (q.last_seen ≡ now) ⊎ (q.last_seen ≡ p.last_seen)

Ages-self : (now : ℕ) (o : Option PeerInfo) → Ages now o o
Ages-self now none = tt
Ages-self now (some q) = inr refl

entry_after-Ages :
    (ip : Bytes) (port now : ℕ) (o : Option PeerInfo) (room : Bool)
    → Ages now o (entry_after ip port now o room)
unfolding announced added
entry_after-Ages ip port now (some p) room = inl refl
entry_after-Ages ip port now none true = inl refl
entry_after-Ages ip port now none false = tt

map-Ages :
    (now : ℕ) (f : PeerInfo → PeerInfo) (o : Option PeerInfo)
    → ((p : PeerInfo) → (f p).last_seen ≡ now)
    → Ages now o (Option.map f o)
map-Ages now f none h = tt
map-Ages now f (some p) h = inl (h p)

-- The entry of `j` after a call on the entry of `ip` alone.
at_entry-Ages :
    (ip j : Bytes) (now : ℕ) (g : Peers) (o : Option PeerInfo)
    → Ages now (peer_of ip g) o
    → Ages now (peer_of j g) (if strcmp_eq ip j then o else peer_of j g)
at_entry-Ages ip j now g o h = elim (Bool-cases (strcmp_eq ip j)) [
  | inl same ↦ rw (same, ← strcmp_eq→eq ip j same) h
  | inr other ↦ rw other (Ages-self now (peer_of j g))
]

pub call_peers-Ages :
    (c : PeerCall) (now : ℕ) (g : Peers) (j : Bytes)
    → IsCallAt now c
    → IsTable g
    → Ages now (peer_of j g) (peer_of j (call_peers c g))
unfolding call_peers load_reported seen
call_peers-Ages (adds ip port time) now g j h t =
    rw (peer_list_add-peer_of ip port time g h.1 j t, h.0)
      (at_entry-Ages ip j now g _
        (entry_after-Ages ip port now (peer_of ip g) (ltb (used g) max_peers)))
call_peers-Ages (removes ip) now g j h t =
    rw (peer_list_remove-peer_of ip g j t) (at_entry-Ages ip j now g none tt)
call_peers-Ages (updates_load ip resp time) now g j h t =
    rw (peer_list_update_load-peer_of ip resp time g j, h)
      (at_entry-Ages ip j now g _
        (map-Ages now (load_reported resp now) (peer_of ip g) (λ p. refl)))
call_peers-Ages (touches ip time) now g j h t =
    rw (peer_list_touch-peer_of ip time g j, h)
      (at_entry-Ages ip j now g _ (map-Ages now (seen now) (peer_of ip g) (λ p. refl)))
call_peers-Ages (reaps time) now g j h t = absurd h

at_entry-Keeps :
    (ip j : Bytes) (now : ℕ) (g : Peers) (o : Option PeerInfo) (p : PeerInfo)
    → peer_of j g ≡ some p
    → (peer_of ip g ≡ some p → Keeps now p o)
    → Keeps now p (if strcmp_eq ip j then o else peer_of j g)
at_entry-Keeps ip j now g o p e h = elim (Bool-cases (strcmp_eq ip j)) [
  | inl same ↦ rw same (h (rw (strcmp_eq→eq ip j same) e))
  | inr other ↦ rw (other, e) (inr refl)
]

pub call_peers-Keeps :
    (c : PeerCall) (now : ℕ) (g : Peers) (j : Bytes) (p : PeerInfo)
    → IsCallAt now c
    → no_bye j c ≡ true
    → IsTable g
    → peer_of j g ≡ some p
    → Keeps now p (peer_of j (call_peers c g))
unfolding call_peers load_reported seen announced no_bye
call_peers-Keeps (adds ip port time) now g j p h b t e =
    rw (peer_list_add-peer_of ip port time g h.1 j t, h.0)
      (at_entry-Keeps ip j now g _ p e (λ e'. rw e' (inl refl)))
call_peers-Keeps (removes ip) now g j p h b t e =
    let other : strcmp_eq ip j ≡ false = ground arith in
    rw (peer_list_remove-peer_of ip g j t, other, e) (inr refl)
call_peers-Keeps (updates_load ip resp time) now g j p h b t e =
    rw (peer_list_update_load-peer_of ip resp time g j, h)
      (at_entry-Keeps ip j now g _ p e (λ e'. rw e' (inl refl)))
call_peers-Keeps (touches ip time) now g j p h b t e =
    rw (peer_list_touch-peer_of ip time g j, h)
      (at_entry-Keeps ip j now g _ p e (λ e'. rw e' (inl refl)))
call_peers-Keeps (reaps time) now g j p h b t e = absurd h

pub Ages-some :
    (now : ℕ) (old o : Option PeerInfo) (q : PeerInfo)
    → Ages now old o
    → o ≡ some q
    → (q.last_seen ≡ now) ⊎ (old ≡ some q)
Ages-some now old o q a e = rw e at a
