-- ===== src/Primes/Listing.antt =====
-- `main` of web_upload_proj.c, and what it has printed when it ends.
use socket_project.Prelude.{
  ℕ, zero, suc, ◌+◌, ◌%◌, ◌≤◌, ◌≡◌, refl, ap, ◌∙◌, true, false, [], ◌∷◌, ◌++◌, ltb, ◌==◌,
  if◌then◌else◌, arith, Bool-cases, ◌⊎◌, inl, inr,
}
use socket_project.Wire.{Bytes}
use socket_project.Startup.Arguments.{decimal}
use socket_project.Primes.{answers, overflows, out_of_fuel, is_prime}
use socket_project.Primes.Correct.{IsPrime, safe_bound, is_prime-Decides}

-- The loop ended, came to an overflow, or is cut off after the rounds of the model.
pub data End : Type 0 where
  finished undefined goes_on : End

-- The numbers that were printed, in order, and the end.
pub data Found : Type 0 where
  stops : End → Found
  prints : ℕ → Found → Found

-- The `while` loop from `num` on, with `count` numbers printed before.
unfoldable pub find_primes : ℕ → ℕ → ℕ → ℕ → Found
find_primes wanted zero count num = stops goes_on
find_primes wanted (suc rounds) count num = elim (ltb count wanted) [
  | false ↦ stops finished
  | true ↦ elim (is_prime num) [
    | answers true ↦ prints num (find_primes wanted rounds (suc count) (suc num))
    | answers false ↦ find_primes wanted rounds count (suc num)
    | overflows ↦ stops undefined
    | out_of_fuel ↦ stops undefined
  ]
]

-- `"%d "` for each, and a new line after every tenth.
unfoldable pub print_found : ℕ → Found → Bytes
print_found count (stops end) = []
print_found count (prints num rest) =
    decimal num
    ++ (b' '
        ∷ (if (count + 1) % 10 == 0
            then 10 ∷ print_found (count + 1) rest
            else print_found (count + 1) rest))

unfoldable pub end_of : Found → End
end_of (stops end) = end
end_of (prints num rest) = end_of rest

unfoldable pub how_many : Found → ℕ
how_many (stops end) = 0
how_many (prints num rest) = suc (how_many rest)

-- All primes from `n` on and below `hi`, in order.
pub data PrimesFrom (hi : ℕ) : ℕ → Found → Type 0 where
  no_more : {n : ℕ} {end : End} → n ≡ hi → PrimesFrom hi n (stops end)
  prime :
      {n : ℕ} {rest : Found}
      → IsPrime n
      → PrimesFrom hi (suc n) rest
      → PrimesFrom hi n (prints n rest)
  composite :
      {n : ℕ} {found : Found}
      → (IsPrime n → ⊥)
      → PrimesFrom hi (suc n) found
      → PrimesFrom hi n found

-- What the loop printed from `num` on, `left` numbers being still wanted, in so many rounds.
pub record Printed (left rounds num : ℕ) (found : Found) : Type 0 where
  pub hi : ℕ
  pub primes : PrimesFrom hi num found
  pub outcome :
      (end_of found ≡ finished) × (how_many found ≡ left)
      ⊎ (end_of found ≡ goes_on) × (how_many found ≤ left) × (hi ≡ num + rounds)

Printed-prints :
    (left rounds num : ℕ) (found : Found)
    → IsPrime num
    → Printed left rounds (suc num) found
    → Printed (suc left) (suc rounds) num (prints num found)
unfolding end_of how_many
Printed-prints left rounds num found p r = record {
  hi = r.hi;
  primes = prime p r.primes;
  outcome = ground (arith, r.outcome);
}

Printed-passes :
    (left rounds num : ℕ) (found : Found)
    → (IsPrime num → ⊥)
    → Printed left rounds (suc num) found
    → Printed left (suc rounds) num found
Printed-passes left rounds num found p r = record {
  hi = r.hi;
  primes = composite p r.primes;
  outcome = ground (arith, r.outcome);
}

-- When what is still wanted and the count make up the number wanted, and the rounds stay below
-- 46337 * 46337, the loop of main in web_upload_proj.c comes to no overflow: it has printed all
-- primes from num on up to where it is, in order and nothing else, where primes are defined by
-- division, and it either ended with exactly as many as were still wanted, or has not more of them
-- and has tried one number in each round.
pub find_primes-Printed :
    (wanted left rounds count num : ℕ)
    → count + left ≡ wanted
    → num + rounds ≤ safe_bound
    → Printed left rounds num (find_primes wanted rounds count num)
unfolding find_primes end_of how_many
find_primes-Printed wanted left zero count num e small = record {
  hi = num;
  primes = no_more refl;
  outcome = inr (refl, omega arith, omega arith);
}
find_primes-Printed wanted zero (suc rounds) count num e small =
    let full : ltb count wanted ≡ false = ground arith in
    rw (full, find_primes) (record { hi = num; primes = no_more refl; outcome = inl (refl, refl) })
find_primes-Printed wanted (suc left) (suc rounds) count num e small =
    let more : ltb count wanted ≡ true = ground arith in
    let (b, verdict, right) = is_prime-Decides num (omega arith) in
    elim (Bool-cases b) [
      | inl taken ↦
          let found : is_prime num ≡ answers true = verdict ∙ ap answers taken in
          rw (more, find_primes, found)
            (Printed-prints left rounds num _ (right.0 taken) (
              find_primes-Printed wanted left rounds (suc count) (suc num) (omega arith)
                (omega arith)))
      | inr passed ↦
          let found : is_prime num ≡ answers false = verdict ∙ ap answers passed in
          rw (more, find_primes, found)
            (Printed-passes (suc left) rounds num _ (λ p. absurd (cc (right.1 p)))
              (find_primes-Printed wanted (suc left) rounds count (suc num) e (omega arith)))
    ]
