-- ===== src/Primes/Tests.antt =====
-- The test for primes of web_upload_proj.c at a few numbers.
use socket_project.Prelude.{◌≡◌, refl, true, false, [], ◌∷◌, arith}
use socket_project.Primes.{answers, prime_loop, is_prime}
use socket_project.Startup.Arguments.{decimal, decimal_digits}
use socket_project.Primes.Listing.{
  finished, find_primes, print_found, end_of, Printed, find_primes-Printed,
}

prime_7919 : is_prime 7919 ≡ answers true
unfolding is_prime prime_loop
prime_7919 = refl

is_prime_square : is_prime 6241 ≡ answers false
unfolding is_prime prime_loop
is_prime_square = refl

-- The 1000th prime is 7919.
thousand : end_of (find_primes 1000 7919 0 2) ≡ finished
unfolding find_primes end_of is_prime prime_loop
thousand = refl

find_primes-Printed_example : Printed 1000 7919 2 (find_primes 1000 7919 0 2)
find_primes-Printed_example = find_primes-Printed 1000 1000 7919 0 2 refl (omega arith)

-- "2 3 5 7 11 13 17 19 23 29 ", and the end of the line.
ten_primes :
    print_found 0 (find_primes 10 40 0 2)
    ≡ b'2' ∷ b' ' ∷ b'3' ∷ b' ' ∷ b'5' ∷ b' ' ∷ b'7' ∷ b' ' ∷ b'1' ∷ b'1' ∷ b' ' ∷ b'1' ∷ b'3'
      ∷ b' ' ∷ b'1' ∷ b'7' ∷ b' ' ∷ b'1' ∷ b'9' ∷ b' ' ∷ b'2' ∷ b'3' ∷ b' ' ∷ b'2' ∷ b'9' ∷ b' '
      ∷ 10 ∷ []
unfolding find_primes print_found is_prime prime_loop decimal decimal_digits
ten_primes = refl
