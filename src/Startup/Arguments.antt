-- ===== src/Startup/Arguments.antt =====
-- The port argument of main.c: what `atoi` reads back.
use socket_project.Prelude.{
  ℕ, zero, suc, ◌+◌, ◌-◌, ◌*◌, ◌/◌, ◌%◌, ◌^◌, ◌<◌, min, ◌≡◌, refl, ◌∙◌, inl, inr, true, false, [],
  ◌∷◌, ◌++◌, ltb, ◌==◌, arith, Bool-cases, All,
}
use socket_project.Wire.{Bytes}
use socket_project.Startup.{is_digit, is_space, digits_value, signed_port, port_of}

-- A number as `printf("%u")` writes it; the fuel is a bound on the number.
unfoldable pub decimal_digits : ℕ → ℕ → Bytes
decimal_digits zero n = []
decimal_digits (suc fuel) n = elim (ltb n 10) [
  | true ↦ (b'0' + n) ∷ []
  | false ↦ decimal_digits fuel (n / 10) ++ ((b'0' + n % 10) ∷ [])
]

unfoldable pub decimal : ℕ → Bytes
decimal n = decimal_digits (suc n) n

abbrev IsDigits : Bytes → Type 0
IsDigits = All (λ c. is_digit c ≡ true)

digit_char : (n : ℕ) → n < 10 → is_digit (b'0' + n) ≡ true
digit_char n h = ground arith

digits_value-append :
    (acc : ℕ) (s : Bytes) (n : ℕ)
    → IsDigits s
    → n < 10
    → digits_value acc (s ++ ((b'0' + n) ∷ [])) ≡ digits_value acc s * 10 + n
unfolding digits_value
digits_value-append acc [] n d h = rw (digit_char n h) (omega arith)
digits_value-append acc (c ∷ s) n d h =
    rw d.0 (digits_value-append (acc * 10 + (c - b'0')) s n d.1 h)

IsDigits-append : (s : Bytes) (n : ℕ) → IsDigits s → n < 10 → IsDigits (s ++ ((b'0' + n) ∷ []))
IsDigits-append [] n d h = (digit_char n h, tt)
IsDigits-append (c ∷ s) n d h = (d.0, IsDigits-append s n d.1 h)

decimal_digits-IsDigits : (fuel n : ℕ) → IsDigits (decimal_digits fuel n)
unfolding decimal_digits
decimal_digits-IsDigits zero n = tt
decimal_digits-IsDigits (suc fuel) n = elim (Bool-cases (ltb n 10)) [
  | inl small ↦ rw (small, decimal_digits) (digit_char n (ground arith), tt)
  | inr big ↦
      rw (big, decimal_digits)
        (IsDigits-append (decimal_digits fuel (n / 10)) (n % 10)
          (decimal_digits-IsDigits fuel (n / 10)) (omega arith))
]

zero_digits : (n : ℕ) → digits_value 0 [] * 10 + n ≡ n
unfolding digits_value
zero_digits n = omega arith

digits_value-decimal_digits : (fuel n : ℕ) → n < fuel → digits_value 0 (decimal_digits fuel n) ≡ n
unfolding decimal_digits
digits_value-decimal_digits zero n h = absurd (omega arith)
digits_value-decimal_digits (suc fuel) n h = elim (Bool-cases (ltb n 10)) [
  | inl small ↦
      rw (small, decimal_digits) (digits_value-append 0 [] n tt (ground arith) ∙ zero_digits n)
  | inr big ↦
      let ih = digits_value-decimal_digits fuel (n / 10) (ground arith) in
      rw (big, decimal_digits)
        (digits_value-append 0 (decimal_digits fuel (n / 10)) (n % 10)
            (decimal_digits-IsDigits fuel (n / 10)) (omega arith)
          ∙ omega (arith, ih))
]

digit_first :
    (c : ℕ)
    → is_digit c ≡ true
    → (is_space c ≡ false) × ((c == b'-') ≡ false) × ((c == b'+') ≡ false)
digit_first c h = (ground arith, ground arith, ground arith)

port_of-digits : (s : Bytes) → IsDigits s → port_of s ≡ min (digits_value 0 s) (2 ^ 63 - 1) % 2 ^ 16
unfolding port_of signed_port digits_value
port_of-digits [] d = refl
port_of-digits (c ∷ s) d = let (a, b, e) = digit_first c d.0 in rw (a, b, e) refl

-- what
pub port_of-decimal : (p : ℕ) → p < 2 ^ 16 → port_of (decimal p) ≡ p
unfolding decimal
port_of-decimal p h =
    port_of-digits (decimal_digits (suc p) p) (decimal_digits-IsDigits (suc p) p)
    ∙ omega (arith, digits_value-decimal_digits (suc p) p (omega arith))
