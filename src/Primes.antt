-- ===== src/Primes.antt =====
-- New_socket_proj/web_upload_proj.c: a program to submit, its test for primes. The argument is an `int`
-- that is not negative; the test answers false for negative ones at once.
pub mod Correct
pub mod Listing
pub mod Tests
use socket_project.Prelude.{
  ℕ, zero, suc, ◌+◌, ◌*◌, ◌%◌, ◌^◌, Bool, true, false, ◌||◌, ltb, leb, ◌==◌, if◌then◌else◌,
}

-- `overflows` where `i * i` is no `int`, which C leaves undefined.
pub data Answer : Type 0 where
  answers : Bool → Answer
  overflows : Answer
  out_of_fuel : Answer

-- The loop from `i` on.
unfoldable pub prime_loop : ℕ → ℕ → ℕ → Answer
prime_loop zero n i = out_of_fuel
prime_loop (suc fuel) n i = elim (ltb (i * i) (2 ^ 31)) [
  | false ↦ overflows
  | true ↦ elim (leb (i * i) n) [
    | false ↦ answers true
    | true ↦ elim (n % i == 0 || n % (i + 2) == 0) [
      | true ↦ answers false
      | false ↦ prime_loop fuel n (i + 6)
    ]
  ]
]

unfoldable pub is_prime : ℕ → Answer
is_prime n =
    if ltb n 2
    then answers false
    else (if n == 2 || n == 3
        then answers true
        else (if n % 2 == 0 || n % 3 == 0 then answers false else prime_loop n n 5))
