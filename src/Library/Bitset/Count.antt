-- ===== src/Library/Bitset/Count.antt =====
-- The constructor, and what `Count`, `Any`, `None` and `All` say of the bits.
use xyris.Base.{
  ℕ, zero, ℕ_discrete, inl, inr, suc, ◌+◌, ◌/◌, ◌%◌, ◌≤◌, ◌<◌, ◌≡◌, ◌≢◌, refl, ap, arith, Bool,
  true, false, size_max, get_or, word, if◌then◌else◌, replicate, get_or-replicate, length-replicate,
  length-set, Bool-cases,
}
use xyris.Base.Bits.{bit_at, bit_at-ones, bit_at-zero}
use xyris.Library.Bitset.{Bitset, index, offset, test, init, set_bit, clear, any, none_set, all}
use xyris.Library.Bitset.Bits.{
  Fits, bit, test-bit, Inside, test-set_bit, test-clear, set_bit-Fits, clear-Fits,
}
use xyris.Library.Bitset.FindRange.{IsWhole}

replicate-Fits : (n w : ℕ) → w < word → Fits (replicate n w)
replicate-Fits zero w h = tt
replicate-Fits (suc n) w h = (h, replicate-Fits n w h)

-- Each operation keeps the set whole.
pub init-IsWhole : (n : ℕ) (v : Bool) → n % 32 ≡ 0 → n ≤ size_max → IsWhole n (init n v)
unfolding init
init-IsWhole n v h small =
    let w : ℕ = if v then size_max else 0 in
    record {
      fits = replicate-Fits (n / 32) w (ground arith);
      whole = omega (arith, length-replicate (n / 32) w);
      small = small;
    }

pub set_bit-IsWhole : (n : ℕ) (b : Bitset) (p : ℕ) → IsWhole n b → IsWhole n (set_bit b p)
unfolding set_bit
set_bit-IsWhole n b p v = record {
  fits = set_bit-Fits b p v.fits;
  whole = rw length-set v.whole;
  small = v.small;
}

pub clear-IsWhole : (n : ℕ) (b : Bitset) (p : ℕ) → IsWhole n b → IsWhole n (clear b p)
unfolding clear
clear-IsWhole n b p v = record {
  fits = clear-Fits b p v.fits;
  whole = rw length-set v.whole;
  small = v.small;
}

pub IsWhole-Inside : (n : ℕ) (b : Bitset) (p : ℕ) → IsWhole n b → p < n → Inside b p
IsWhole-Inside n b p v h = omega (arith, v.whole)

word-init :
    (n : ℕ) (v : Bool) (i : ℕ)
    → i < n / 32
    → get_or (init n v).words i 0 ≡ (if v then size_max else 0)
unfolding init
word-init n v i h = get_or-replicate (n / 32) i _ 0 h

-- The constructor gives every position the wanted value.
pub test-init : (n : ℕ) (v : Bool) (p : ℕ) → n % 32 ≡ 0 → p < n → test (init n v) p ≡ v
test-init n v p h below =
    let w : ℕ = if v then size_max else 0 in
    let found : bit (init n v) p ≡ bit_at w (offset p) =
      ap (λ t. bit_at t (offset p)) (word-init n v (index p) (omega arith)) in
    elim (Bool-cases v) [
      | inl e ↦ ground (
        arith,
        test-bit (init n v) p,
        found,
        ap (λ (t : Bool). bit_at (if t then size_max else 0) (offset p)) e,
        bit_at-ones 32 (offset p) (omega arith),
      )
      | inr e ↦ ground (
        arith,
        test-bit (init n v) p,
        found,
        ap (λ (t : Bool). bit_at (if t then size_max else 0) (offset p)) e,
        bit_at-zero (offset p),
      )
    ]

-- How many of the first `n` positions pass a test.
unfoldable pub count_of : ℕ → (ℕ → Bool) → ℕ
count_of zero f = 0
count_of (suc n) f = (if f n then 1 else 0) + count_of n f

module _ (f g : ℕ → Bool) (p : ℕ) (same : (q : ℕ) → q ≢ p → g q ≡ f q) where
  count_of-below : (n : ℕ) → n ≤ p → count_of n g ≡ count_of n f
  unfolding count_of
  count_of-below zero h = refl
  count_of-below (suc n) h = ground (arith, same n, count_of-below n)

  count_of-change :
      (n : ℕ)
      → p < n
      → count_of n g + (if f p then 1 else 0) ≡ count_of n f + (if g p then 1 else 0)
  unfolding count_of
  count_of-change zero h = absurd (omega arith)
  count_of-change (suc n) h = elim (ℕ_discrete n p) [
    | yes e ↦ rw e (omega (arith, count_of-below p (omega arith)))
    | no ne ↦ ground (arith, same n ne, count_of-change n (omega arith))
  ]

-- The counter holds the number of set bits.
abbrev pub IsCounted : ℕ → Bitset → Type 0
IsCounted n b = b.count ≡ count_of n (test b)

count_of-le : (n : ℕ) (f : ℕ → Bool) → count_of n f ≤ n
unfolding count_of
count_of-le zero f = omega arith
count_of-le (suc n) f = ground (arith, count_of-le n f)

module _ (n : ℕ) (b : Bitset) (v : IsWhole n b) (p : ℕ) (below : p < n)
    (counted : IsCounted n b) where
  others-set_bit : (q : ℕ) → q ≢ p → test (set_bit b p) q ≡ test b q
  others-set_bit q ne = ground (arith, test-set_bit b p q (IsWhole-Inside n b p v below))

  others-clear : (q : ℕ) → q ≢ p → test (clear b p) q ≡ test b q
  others-clear q ne = ground (arith, test-clear b p q (IsWhole-Inside n b p v below))

  -- `Set` of a clear position counts it.
  pub set_bit-IsCounted : test b p ≡ false → IsCounted n (set_bit b p)
  unfolding set_bit
  set_bit-IsCounted e = ground (
    arith,
    test-set_bit b p p (IsWhole-Inside n b p v below),
    count_of-change (test b) (test (set_bit b p)) p others-set_bit n below,
    count_of-le n (test (set_bit b p)),
    v.small,
  )

  -- `Clear` of a set position counts it out.
  pub clear-IsCounted : test b p ≡ true → IsCounted n (clear b p)
  unfolding clear
  clear-IsCounted e = ground (
    arith,
    test-clear b p p (IsWhole-Inside n b p v below),
    count_of-change (test b) (test (clear b p)) p others-clear n below,
    count_of-le n (test b),
    v.small,
  )

-- A set built with the default value true counts no bit: `None` holds and `Any` fails, though every
-- bit is set.
pub init-true_miscounts :
    (n p : ℕ)
    → n % 32 ≡ 0
    → p < n
    → (test (init n true) p ≡ true)
      × (none_set (init n true) ≡ true)
      × (any (init n true) ≡ false)
      × (all (init n true) ≡ false)
unfolding none_set any all init
init-true_miscounts n p h below = (test-init n true p h below, refl, refl, ground arith)
