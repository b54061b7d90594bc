-- ===== src/Applications/Primes.antt =====
-- Kernel/Applications/primes.cpp: the sieve over a bitset. PRIME_MAX_SQRT, which the source leaves to be
-- tweaked, is the argument `limit`. The screen output is left out.
pub mod Marks
pub mod Sieve
mod Tests
use xyris.Base.{
  ℕ, zero, suc, ◌+◌, ◌-◌, ◌*◌, Bool, true, not, ltb, if◌then◌else◌, Option, none, some, add_word,
  mul_word,
}
use xyris.Base.Maybe.{◌>>=◌}
use xyris.Library.Bitset.{Bitset, init, clear, test}

-- `PRIME_MAX`
abbrev pub prime_max : ℕ → ℕ
prime_max limit = limit * limit

-- The static `map`.
abbrev pub numbers : ℕ → Bitset
numbers limit = init (prime_max limit) true

-- The inner loop from `j` on, with `n` rounds at most: none where more would follow.
unfoldable pub clear_multiples : ℕ → ℕ → Bitset → ℕ → ℕ → Option Bitset
clear_multiples zero max map prime j = if ltb j max then none else some map
clear_multiples (suc n) max map prime j =
    let rest = clear_multiples n max (clear map j) prime (add_word j prime) in
    if ltb j max then rest else some map

-- One round of the outer loop, where the inner one may take `rounds` rounds.
unfoldable pub sieve_number : ℕ → ℕ → Bitset → ℕ → Option Bitset
sieve_number rounds max map prime =
    let cleared = clear_multiples rounds max map prime (mul_word prime prime) in
    if not (test map prime) then some map else cleared

-- The outer loop from `prime` on, `n` rounds.
unfoldable pub sieve : ℕ → ℕ → ℕ → Bitset → ℕ → Option Bitset
sieve zero rounds max map prime = some map
sieve (suc n) rounds max map prime =
    sieve_number rounds max map prime >>= λ m. sieve n rounds max m (prime + 1)

-- `find_primes`: from 2 up to the limit.
unfoldable pub find_primes : ℕ → ℕ → Option Bitset
find_primes rounds limit = sieve (limit - 2) rounds (prime_max limit) (numbers limit) 2

-- The loop of `show_primes` over the map, from `i` on, `n` rounds.
unfoldable pub count_primes : ℕ → Bitset → ℕ → ℕ → ℕ
count_primes zero map i count = count
count_primes (suc n) map i count =
    count_primes n map (i + 1) (if test map i then add_word count 1 else count)
