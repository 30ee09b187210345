-- ===== src/Primes/Correct.antt =====
-- The test for primes of web_upload_proj.c against the definition.
use Prim.Native.Nat.{◌∣◌}
use mathlib.Core.Path.{subst}
use native.Mathlib.Nat.{
  dvd_of_mod-eq-zero, mod-eq-zero_of_dvd, dvd_trans, div-mul_cancel, mul-le-mul, dvd-mul_right,
}
use socket_project.Prelude.{
  ℕ, zero, suc, ◌+◌, ◌*◌, ◌/◌, ◌%◌, ◌^◌, ◌≤◌, ◌<◌, ◌≡◌, ◌≢◌, refl, ◌⊎◌, inl, inr, ◌↔◌, Bool, true,
  false, ◌||◌, ltb, leb, ◌==◌, arith, Bool-cases,
}
use socket_project.Primes.{Answer, answers, prime_loop, is_prime}

-- No number from 2 up to `i` divides `n`.
abbrev pub HasNoDivisor : ℕ → ℕ → Type 0
HasNoDivisor n i = (d : ℕ) → 2 ≤ d → d < i → n % d ≢ 0

pub record IsPrime (n : ℕ) : Type 0 where
  pub large : 2 ≤ n
  pub no_divisor : HasNoDivisor n n

-- The square of the greatest `i` of the loop that has an `int` as square.
abbrev pub safe_bound : ℕ
safe_bound = 46337 * 46337

mod_through : (n d k : ℕ) → n % d ≡ 0 → d % k ≡ 0 → n % k ≡ 0
mod_through n d k h e =
    mod-eq-zero_of_dvd k (dvd_trans k (dvd_of_mod-eq-zero k e) (dvd_of_mod-eq-zero d h))

sq_le : (a b : ℕ) → a ≤ b → a * a ≤ b * b
sq_le a b h = mul-le-mul h h

not_less : (a b : ℕ) → ltb a b ≡ false → b ≤ a
not_less a b h = ground arith

lt_of_sq-lt : (a b : ℕ) → a * a < b * b → a < b
lt_of_sq-lt a b h = elim (Bool-cases (ltb a b)) [
  | inl less ↦ ground arith
  | inr more ↦ absurd (let s = sq_le b a (ground arith) in omega arith)
]

-- A factor of a greater number is not alone.
factor_large : (q d n : ℕ) → q * d ≡ n → d < n → 2 ≤ q
factor_large zero d n e less = absurd (omega arith)
factor_large (suc zero) d n e less = absurd (omega arith)
factor_large (suc (suc q)) d n e less = omega arith

-- The other factor of a number, for a factor that is not below `i`.
cofactor :
    (n i d : ℕ) → n < i * i → i ≤ d → d < n → n % d ≡ 0 → (q : ℕ) × (2 ≤ q) × (q < i) × (n % q ≡ 0)
cofactor n i d small big less e =
    let q = n / d in
    let whole : q * d ≡ n = div-mul_cancel d (dvd_of_mod-eq-zero d e) in
    (
      q,
      factor_large q d n whole less,
      (elim (Bool-cases (ltb q i)) [
        | inl low ↦ ground arith
        | inr high ↦ absurd (let s = mul-le-mul (not_less q i high) big in omega arith)
      ]),
      mod-eq-zero_of_dvd q (subst (λ m. q ∣ m) whole (dvd-mul_right q d)),
    )

HasNoDivisor-all : (n i : ℕ) → n < i * i → HasNoDivisor n i → HasNoDivisor n n
HasNoDivisor-all n i small h d two less e = elim (Bool-cases (ltb d i)) [
  | inl low ↦ h d two (ground arith) e
  | inr high ↦ let (q, l, b, e') = cofactor n i d small (not_less d i high) less e in h q l b e'
]

third : (i d : ℕ) → i % 6 ≡ 5 → i ≤ d → d < i + 6 → d % 2 ≡ 1 → (d % 3 ≡ 0) ⊎ (d ≡ i) ⊎ (d ≡ i + 2)
third i d m low high odd = elim (Bool-cases (d == i)) [
  | inl same ↦ inr (inl (ground arith))
  | inr other ↦ elim (Bool-cases (d == i + 2)) [
    | inl next ↦ inr (inr (ground arith))
    | inr neither ↦ inl (ground arith)
  ]
]

-- Six more numbers: two that the loop tests, three even ones and one that 3 divides.
HasNoDivisor-step :
    (n i : ℕ)
    → i % 6 ≡ 5
    → n % 2 ≢ 0
    → n % 3 ≢ 0
    → n % i ≢ 0
    → n % (i + 2) ≢ 0
    → HasNoDivisor n i
    → HasNoDivisor n (i + 6)
HasNoDivisor-step n i m two three ni nj h d l less e = elim (Bool-cases (ltb d i)) [
  | inl low ↦ h d l (ground arith) e
  | inr high ↦ elim (Bool-cases (d % 2 == 0)) [
    | inl even ↦ two (mod_through n d 2 e (ground arith))
    | inr odd ↦ elim (third i d m (not_less d i high) less (ground arith)) [
      | inl thrice ↦ three (mod_through n d 3 e thrice)
      | inr (inl same) ↦ ni (subst (λ x. n % x ≡ 0) same e)
      | inr (inr next) ↦ nj (subst (λ x. n % x ≡ 0) next e)
    ]
  ]
]

-- The verdict is right, and there is one.
abbrev pub Decides : ℕ → Answer → Type 0
Decides n r = (b : Bool) × (r ≡ answers b) × ((b ≡ true) ↔ IsPrime n)

divided : (n d : ℕ) → 2 ≤ d → d < n → n % d ≡ 0 → Decides n (answers false)
divided n d two less e = (false, refl, (λ h. absurd (cc), λ p. absurd (p.no_divisor d two less e)))

undivided : (n : ℕ) → IsPrime n → Decides n (answers true)
undivided n p = (true, refl, (λ h. p, λ h. refl))

-- The squares of the loop are far above the numbers that it tries.
next_inside : (n i : ℕ) → 5 ≤ i → i * i ≤ n → i + 20 ≤ n
next_inside n i five h = let s : 5 * i ≤ i * i = mul-le-mul five (omega arith) in omega arith

next_safe : (n i : ℕ) → n < safe_bound → i % 6 ≡ 5 → i * i ≤ n → i + 6 ≤ 46337
next_safe n i bound m h = let less = lt_of_sq-lt i 46337 (omega arith) in omega arith

prime_loop-Decides :
    (fuel n i : ℕ)
    → 1 ≤ fuel
    → n < i + fuel
    → n < safe_bound
    → 2 ≤ n
    → 5 ≤ i
    → i ≤ 46337
    → i % 6 ≡ 5
    → n % 2 ≢ 0
    → n % 3 ≢ 0
    → HasNoDivisor n i
    → Decides n (prime_loop fuel n i)
unfolding prime_loop
prime_loop-Decides zero n i f g bound large five safe m two three h = absurd (omega arith)
prime_loop-Decides (suc fuel) n i f g bound large five safe m two three h =
    let s = sq_le i 46337 safe in
    let fits : ltb (i * i) (2 ^ 31) ≡ true = ground arith in
    elim (Bool-cases (leb (i * i) n)) [
      | inl more ↦
          let inside = next_inside n i five (ground arith) in
          elim (Bool-cases (n % i == 0)) [
            | inl first ↦
                rw (fits, prime_loop, more, first)
                  (divided n i (omega arith) (omega arith) (ground arith))
            | inr not_first ↦ elim (Bool-cases (n % (i + 2) == 0)) [
              | inl second ↦
                  rw (fits, prime_loop, more, not_first, second)
                    (divided n (i + 2) (omega arith) (omega arith) (ground arith))
              | inr not_second ↦
                  rw (fits, prime_loop, more, not_first, not_second)
                    (prime_loop-Decides fuel n (i + 6) (omega arith) (omega arith) bound large
                      (omega arith) (next_safe n i bound m (ground arith)) (omega arith) two three
                      (HasNoDivisor-step n i m two three (ground arith) (ground arith) h))
            ]
          ]
      | inr end ↦
          rw (fits, prime_loop, end)
            (undivided n
              (record { large = large; no_divisor = HasNoDivisor-all n i (ground arith) h }))
    ]

small_divisors : (n : ℕ) → n % 2 ≢ 0 → n % 3 ≢ 0 → HasNoDivisor n 5
small_divisors n two three d l less e = elim (Bool-cases (d % 2 == 0)) [
  | inl even ↦ two (mod_through n d 2 e (ground arith))
  | inr odd ↦ three (mod_through n d 3 e (ground arith))
]

two_or_three : (n : ℕ) → (n == 2 || n == 3) ≡ true → IsPrime n
two_or_three n h = record {
  large = ground arith;
  no_divisor = λ d two less e.
      let small : n ≤ 3 = ground arith in
      let at_two : d ≡ 2 = omega arith in
      let at_three : n ≡ 3 = omega arith in let odd : n % 2 ≡ 0 = rw at_two at e in omega arith;
}

-- For every number below 46337 * 46337, is_prime returns, without overflow, and says true exactly
-- for the numbers from 2 on that no smaller number from 2 on divides.
pub is_prime-Decides : (n : ℕ) → n < safe_bound → Decides n (is_prime n)
unfolding is_prime
is_prime-Decides n bound = elim (Bool-cases (ltb n 2)) [
  | inl tiny ↦ rw tiny (false, refl, (λ h. absurd (cc), λ p. absurd (ground (arith, p.large))))
  | inr large ↦ elim (Bool-cases (n == 2 || n == 3)) [
    | inl small ↦ rw (large, small) (undivided n (two_or_three n small))
    | inr more ↦ elim (Bool-cases (n % 2 == 0)) [
      | inl even ↦ rw (large, more, even) (divided n 2 (omega arith) (ground arith) (ground arith))
      | inr odd ↦ elim (Bool-cases (n % 3 == 0)) [
        | inl third ↦
            rw (large, more, odd, third) (divided n 3 (omega arith) (ground arith) (ground arith))
        | inr rest ↦
            rw (large, more, odd, rest)
              (prime_loop-Decides n n 5 (ground arith) (ground arith) bound (ground arith)
                (omega arith) (omega arith) refl (ground arith) (ground arith)
                (small_divisors n (ground arith) (ground arith)))
      ]
    ]
  ]
]
