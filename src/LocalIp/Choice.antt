-- ===== src/LocalIp/Choice.antt =====
-- Which address get_local_ip of net_utils.c chooses.
use socket_project.Prelude.{
  ◌≡◌, refl, ap, ◌⊎◌, inl, inr, Bool, true, false, Option, none, some, List, [], ◌∷◌, ◌++◌, All,
  Bool-cases,
}
use socket_project.Wire.{Bytes, strcmp_eq}
use socket_project.Wire.Codec.{strcmp_eq_refl, strcmp_eq→eq}
use socket_project.LocalIp.{
  Interface, loopback_ip, usable, is_wanted, first_match, address_or_loopback, second_pass,
  get_local_ip,
}

-- An AF_INET interface that is no loopback.
abbrev pub IsOutward : Interface → Type 0
IsOutward i = (i.has_inet ≡ true) × (i.is_loopback ≡ false)

-- It has the name that was asked for, if one was.
abbrev pub HasName : Option Bytes → Interface → Type 0
HasName none i = Unit {0}
HasName (some name) i = i.name ≡ name

abbrev pub IsAsked : Option Bytes → Interface → Type 0
IsAsked iface i = IsOutward i × HasName iface i

-- No interface of the list has the property.
abbrev pub HasNone : (Interface → Type 0) → List Interface → Type 0
HasNone P = All (λ i. ¬ P i)

-- The address of the first interface of the list that has the property.
abbrev pub IsFirst : (Interface → Type 0) → Bytes → List Interface → Type 0
IsFirst P ip ifs =
    (front : List Interface) × (i : Interface) × (back : List Interface) × (ifs ≡ front ++ i ∷ back)
    × HasNone P front
    × P i
    × (i.address ≡ ip)

-- A test that decides a property.
abbrev Decides : (Interface → Bool) → (Interface → Type 0) → Type 0
Decides test P = (i : Interface) → ((test i ≡ true) × P i) ⊎ ((test i ≡ false) × ¬ P i)

usable-IsOutward : Decides usable IsOutward
unfolding usable
usable-IsOutward i = elim (Bool-cases i.has_inet) [
  | inr e ↦ inr (rw e refl, λ a. cc (e, a.0))
  | inl e ↦ elim (Bool-cases i.is_loopback) [
    | inl l ↦ inr (rw (e, l) refl, λ a. cc (l, a.1))
    | inr l ↦ inl (rw (e, l) refl, (e, l))
  ]
]

is_wanted-IsAsked : (iface : Option Bytes) → Decides (is_wanted iface) (IsAsked iface)
unfolding is_wanted
is_wanted-IsAsked none i = elim (usable-IsOutward i) [
  | inl (t, p) ↦ inl (t, (p, tt))
  | inr (t, n) ↦ inr (t, λ a. n a.0)
]
is_wanted-IsAsked (some iface) i = elim (usable-IsOutward i) [
  | inr (t, n) ↦ inr (rw t refl, λ a. n a.0)
  | inl (t, p) ↦ elim (Bool-cases (strcmp_eq i.name iface)) [
    | inl e ↦ inl (rw (t, e) refl, (p, strcmp_eq→eq i.name iface e))
    | inr e ↦
        inr (rw (t, e) refl, λ a. cc (e, ap (λ n. strcmp_eq n iface) a.1, strcmp_eq_refl iface))
  ]
]

first_match_cases :
    (test : Interface → Bool) (P : Interface → Type 0) (ifs : List Interface)
    → Decides test P
    → ((i : Interface) × (first_match test ifs ≡ some i) × IsFirst P i.address ifs)
      ⊎ ((first_match test ifs ≡ none) × HasNone P ifs)
unfolding first_match
first_match_cases test P [] d = inr (refl, tt)
first_match_cases test P (i ∷ ifs) d = elim (d i) [
  | inl (e, p) ↦ inl (i, rw e refl, ([], i, ifs, refl, tt, p, refl))
  | inr (e, n) ↦ elim (first_match_cases test P ifs d) [
    | inl (j, h, (front, k, back, split, before, p, a)) ↦
        inl (j, rw e h, (i ∷ front, k, back, ap (λ l. i ∷ l) split, (n, before), p, a))
    | inr (h, a) ↦ inr (rw e h, (n, a))
  ]
]

second_pass_cases :
    (iface : Option Bytes) (ifs : List Interface)
    → HasNone (IsAsked iface) ifs
    → IsFirst IsOutward (second_pass iface ifs) ifs
      ⊎ (HasNone IsOutward ifs × (second_pass iface ifs ≡ loopback_ip))
unfolding second_pass address_or_loopback
second_pass_cases none ifs h = inr (only_outward ifs h, refl)
  where
    only_outward : (l : List Interface) → HasNone (IsAsked none) l → HasNone IsOutward l
    only_outward [] h = tt
    only_outward (i ∷ l) h = ((λ p. h.0 (p, tt)), only_outward l h.1)
second_pass_cases (some iface) ifs h =
    elim (first_match_cases usable IsOutward ifs usable-IsOutward) [
      | inl (j, e, a) ↦ inl (rw e a)
      | inr (e, a) ↦ inr (a, rw e refl)
    ]

-- When getifaddrs succeeds, get_local_ip succeeds, with the address of the first AF_INET interface
-- that is no loopback and has the wanted name, if one was asked for; where there is no such
-- interface, with the address of the first AF_INET interface that is no loopback, and with
-- 127.0.0.1 where there is none of those either.
pub get_local_ip_choice :
    (iface : Option Bytes) (ifs : List Interface)
    → (ip : Bytes) × (get_local_ip iface (some ifs) ≡ some ip)
      × (IsFirst (IsAsked iface) ip ifs
          ⊎ (HasNone (IsAsked iface) ifs
              × (IsFirst IsOutward ip ifs ⊎ (HasNone IsOutward ifs × (ip ≡ loopback_ip)))))
unfolding get_local_ip
get_local_ip_choice iface ifs =
    elim (first_match_cases (is_wanted iface) (IsAsked iface) ifs (is_wanted-IsAsked iface)) [
      | inl (j, e, a) ↦ (j.address, rw (e, get_local_ip) refl, inl a)
      | inr (e, h) ↦
          (second_pass iface ifs, rw (e, get_local_ip) refl, inr (h, second_pass_cases iface ifs h))
    ]
