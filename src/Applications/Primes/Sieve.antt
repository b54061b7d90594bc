-- ===== src/Applications/Primes/Sieve.antt =====
-- The sieve leaves exactly the primes.
use xyris.Base.{
  ℕ, zero, suc, ◌+◌, ◌-◌, ◌*◌, ◌%◌, ◌<◌, ◌≤◌, ◌≡◌, ◌≢◌, ◌↔◌, refl, sym, ◌∙◌, ap, arith, subst, inl,
  inr, true, false, Bool-cases, Option, some, word, mul_word, ℕ_discrete, dec_le,
}
use xyris.Library.Bitset.{Bitset, test}
use xyris.Library.Bitset.Bits.{length-init}
use xyris.Library.Bitset.Count.{test-init}
use xyris.Applications.Primes.{
  clear_multiples, sieve_number, sieve, find_primes, prime_max, numbers,
}
use xyris.Applications.Primes.Marks.{Covers, ClearsFrom, clear_multiples-ClearsFrom}

-- `i` has a divisor below `k` that is not above its square root.
abbrev pub HasDivisor : ℕ → ℕ → Type 0
HasDivisor k i = (d : ℕ) × (q : ℕ) × (2 ≤ d) × (d < k) × (d * d ≤ i) × (i ≡ q * d)

-- Before the round for `k`, the numbers with such a divisor are cleared.
record Sieved (max k : ℕ) (map : Bitset) : Type 0 where
  pub covers : Covers map max
  pub cleared : (i : ℕ) → i < max → test map i ≡ false → HasDivisor k i
  pub divisor : (i : ℕ) → i < max → HasDivisor k i → test map i ≡ false

square_le : (a b : ℕ) → a ≤ b → a * a ≤ b * b
square_le a b h = grind arith

square_cancel : (a q : ℕ) → 0 < a → a * a ≤ q * a → a ≤ q
square_cancel a q pos h = grind arith

square_lt : (a b : ℕ) → a * a < b * b → a < b
square_lt a b h = grind arith

wider : (k i : ℕ) → HasDivisor k i → HasDivisor (k + 1) i
wider k i (d, q, two, lt, sq, e) = (d, q, two, omega arith, sq, e)

-- A divisor of a divisor.
divisor_trans : (k i q : ℕ) → 2 ≤ k → k * k ≤ i → i ≡ q * k → HasDivisor k k → HasDivisor k i
divisor_trans k i q two sq e (d, r, twod, lt, sqd, f) =
    let product : i ≡ q * r * d = grind arith in
    let below : k ≤ k * k = grind arith in (d, q * r, twod, lt, omega arith, product)

multiple_from : (k q m : ℕ) → q ≡ k + m → q * k ≡ k * k + m * k
multiple_from k q m e = ap (λ x. x * k) e ∙ distributes
  where
    distributes : (k + m) * k ≡ k * k + m * k
    distributes = grind arith

Sieved-kept :
    (max k : ℕ) (map : Bitset)
    → 2 ≤ k
    → k < max
    → test map k ≡ false
    → Sieved max k map
    → Sieved max (k + 1) map
Sieved-kept max k map two small e h = record {
  covers = h.covers;
  cleared = λ i lt c. wider k i (h.cleared i lt c);
  divisor = λ i lt (d, q, twod, below, sq, f). elim (ℕ_discrete d k) [
    | no other ↦ h.divisor i lt (d, q, twod, omega arith, sq, f)
    | yes same ↦
        let square : k * k ≤ i = subst (λ x. x * x ≤ i) same sq in
        let product : i ≡ q * k = f ∙ ap (λ x. q * x) same in
        h.divisor i lt (divisor_trans k i q two square product (h.cleared k small e))
  ];
}

Sieved-cleared :
    (max k : ℕ) (map after : Bitset)
    → 2 ≤ k
    → Sieved max k map
    → ClearsFrom map after max k (k * k)
    → Sieved max (k + 1) after
Sieved-cleared max k map after two h c = record {
  covers = c.covers;
  cleared = λ i lt e. elim (c.only i e) [
    | inl before ↦ wider k i (h.cleared i lt before)
    | inr (m, same) ↦
        (k, k + m, two, omega arith, omega arith, same ∙ sym (multiple_from k (k + m) m refl))
  ];
  divisor = λ i lt (d, q, twod, below, sq, f). elim (ℕ_discrete d k) [
    | no other ↦ c.old i (h.divisor i lt (d, q, twod, omega arith, sq, f))
    | yes same ↦
        let square : k * k ≤ i = subst (λ x. x * x ≤ i) same sq in
        let product : i ≡ q * k = f ∙ ap (λ x. q * x) same in
        let large : k ≤ q = square_cancel k q (omega arith) (omega arith) in
        let at : i ≡ k * k + (q - k) * k = product ∙ multiple_from k q (q - k) (omega arith) in
        ap (test after) at ∙ c.hit (q - k) (omega arith)
  ];
}

sieve_number-cleared :
    (rounds max k : ℕ) (map after : Bitset)
    → test map k ≡ true
    → mul_word k k ≡ k * k
    → clear_multiples rounds max map k (k * k) ≡ some after
    → sieve_number rounds max map k ≡ some after
unfolding sieve_number
sieve_number-cleared rounds max k map after e square h = rw (e, square) h

-- One round of the outer loop.
sieve_number-Sieved :
    (rounds max k : ℕ) (map : Bitset)
    → 2 ≤ k
    → k < max
    → k * k < word
    → max ≤ rounds
    → max + k < word
    → Sieved max k map
    → (after : Bitset) × (sieve_number rounds max map k ≡ some after) × Sieved max (k + 1) after
unfolding sieve_number
sieve_number-Sieved rounds max k map two small square enough fits h =
    elim (Bool-cases (test map k)) [
      | inr composite ↦ (map, rw composite refl, Sieved-kept max k map two small composite h)
      | inl prime ↦
          let same : mul_word k k ≡ k * k = omega arith in
          let (after, e, c) =
            clear_multiples-ClearsFrom rounds max map k (k * k) (omega arith) (omega arith) fits
              h.covers in
          (
            after,
            sieve_number-cleared rounds max k map after prime same e,
            Sieved-cleared max k map after two h c,
          )
    ]

sieve-next :
    (n rounds max k : ℕ) (map after : Bitset) (r : Option Bitset)
    → sieve_number rounds max map k ≡ some after
    → sieve n rounds max after (k + 1) ≡ r
    → sieve (suc n) rounds max map k ≡ r
unfolding sieve
sieve-next n rounds max k map after r e h = rw e h

sieve-Sieved :
    (n rounds limit k : ℕ) (map : Bitset)
    → 2 ≤ k
    → k + n ≡ limit
    → prime_max limit ≤ rounds
    → prime_max limit + limit < word
    → Sieved (prime_max limit) k map
    → (after : Bitset) × (sieve n rounds (prime_max limit) map k ≡ some after)
      × Sieved (prime_max limit) limit after
unfolding sieve
sieve-Sieved zero rounds limit k map two end enough fits h =
    let at : k ≡ limit = omega arith in
    (map, refl, subst (λ x. Sieved (prime_max limit) x map) at h)
sieve-Sieved (suc n) rounds limit k map two end enough fits h =
    let below : k < limit = omega arith in
    let square : k * k ≤ limit * limit = square_le k limit (omega arith) in
    let less : limit ≤ limit * limit = grind arith in
    let (m, e, h') =
      sieve_number-Sieved rounds (prime_max limit) k map two (omega arith) (omega arith) enough
        (omega arith) h in
    let (after, e', h'') =
      sieve-Sieved n rounds limit (k + 1) m (omega arith) (omega arith) enough fits h' in
    (after, sieve-next n rounds (prime_max limit) k map m (some after) e e', h'')

-- A prime number from 2 on: none of the smaller numbers from 2 on divides it.
abbrev pub IsPrime : ℕ → Type 0
IsPrime i = (d q : ℕ) → 2 ≤ d → d < i → i ≢ q * d

-- Of two factors one is not above the square root.
HasDivisor-factor :
    (limit i d q : ℕ) → i < limit * limit → 2 ≤ d → 2 ≤ q → i ≡ q * d → HasDivisor limit i
HasDivisor-factor limit i d q small twod twoq e = elim (dec_le d q) [
  | yes le ↦
      let sq : d * d ≤ q * d = grind arith in
      (d, q, twod, square_lt d limit (omega arith), omega arith, e)
  | no gt ↦
      let sq : q * q ≤ q * d = grind arith in
      let swap : q * d ≡ d * q = grind arith in
      (q, d, twoq, square_lt q limit (omega arith), omega arith, e ∙ swap)
]

second_factor : (i d q : ℕ) → 2 ≤ i → d < i → i ≡ q * d → 2 ≤ q
second_factor i d zero two lt e = absurd (let z : 0 * d ≡ 0 = omega arith in omega arith)
second_factor i d (suc zero) two lt e = absurd (let o : suc 0 * d ≡ d = omega arith in omega arith)
second_factor i d (suc (suc q)) two lt e = omega arith

-- With a limit of 2 or more whose square is a multiple of 32 and fits, and with enough rounds for the
-- inner loop, `find_primes` ends, and of the numbers from 2 below the square it leaves exactly the
-- primes set.
pub find_primes-IsPrime :
    (rounds limit : ℕ)
    → 2 ≤ limit
    → prime_max limit % 32 ≡ 0
    → prime_max limit + limit < word
    → prime_max limit ≤ rounds
    → (map : Bitset) × (find_primes rounds limit ≡ some map)
      × ((i : ℕ) → 2 ≤ i → i < prime_max limit → (test map i ≡ true) ↔ IsPrime i)
unfolding find_primes
find_primes-IsPrime rounds limit two whole fits enough =
    let initial : Sieved (prime_max limit) 2 (numbers limit) = record {
      covers = omega (arith, length-init (prime_max limit) true);
      cleared =
          λ i lt e. let full = test-init (prime_max limit) true i whole lt in absurd (ground arith);
      divisor = λ i lt (d, q, twod, below, sq, r). absurd (omega arith);
    } in
    let (map, e, h) =
      sieve-Sieved (limit - 2) rounds limit 2 (numbers limit) (omega arith) (omega arith) enough
        fits initial in
    (
      map,
      e,
      λ i low high. (
        (λ set d q twod below f.
            let clear =
              h.divisor i high
                (HasDivisor-factor limit i d q high twod (second_factor i d q low below f) f) in
            ground arith),
        (λ prime. elim (Bool-cases (test map i)) [
          | inl set ↦ set
          | inr clear ↦
              let (d, q, twod, below, sq, f) = h.cleared i high clear in
              let bigger : d < d * d = grind arith in absurd (prime d q twod (omega arith) f)
        ]),
      ),
    )
