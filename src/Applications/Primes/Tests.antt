-- ===== src/Applications/Primes/Tests.antt =====
-- A run of the sieve up to 64, and its theorem for the limit of the source.
use xyris.Base.{ℕ, ◌<◌, ◌≤◌, ◌≡◌, ◌↔◌, refl, arith, true, some}
use xyris.Library.Bitset.{Bitset, test}
use xyris.Applications.Primes.{find_primes, prime_max}
use xyris.Applications.Primes.Sieve.{IsPrime, find_primes-IsPrime}

find_primes-IsPrime_example :
    (map : Bitset) × (find_primes 16000000 4000 ≡ some map)
    × ((i : ℕ) → 2 ≤ i → i < prime_max 4000 → (test map i ≡ true) ↔ IsPrime i)
find_primes-IsPrime_example =
    find_primes-IsPrime 16000000 4000 (omega arith) refl (omega arith) (omega arith)
