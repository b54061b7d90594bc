-- ===== src/Base/Bits.antt =====
-- The bits of a word: `|`, `&`, `~` and shifts read bit by bit.
mod Step
use Prim.Native.Nat.{bit_and, bit_or}
use native.Mathlib.Decide.{dec_lt}
use native.Mathlib.Nat.{le_refl, div-mul-le_self, pow-suc, one-le-pow, div-div-eq-div-mul}
use Step.{zero-bit_and, bit_and_step, bit_or_step}
use Prim.Native.Nat.{ℕ, zero, suc, ◌+◌, ◌-◌, ◌*◌, ◌/◌, ◌%◌, ◌^◌, ◌≤◌, ◌<◌, min, max}
use mathlib.Core.Path.{◌≡◌, refl, sym, ap, ap₂, ◌∙◌}
use mathlib.Core.Logic.{◌≢◌}
use native.Mathlib.Omega.{arith}

-- Bit `k` of `x`.
pub bit_at : ℕ → ℕ → ℕ
bit_at x zero = x % 2
bit_at x (suc k) = bit_at (x / 2) k

pub bit_at-lt : (x k : ℕ) → bit_at x k < 2
unfolding bit_at
bit_at-lt x zero = omega arith
bit_at-lt x (suc k) = bit_at-lt (x / 2) k

-- `x >> k & 1` is bit `k`.
pub bit_at-shift : (x k : ℕ) → bit_at x k ≡ x / 2 ^ k % 2
unfolding bit_at
bit_at-shift x zero = omega arith
bit_at-shift x (suc k) =
    bit_at-shift (x / 2) k
    ∙ ap (λ t. t % 2)
        (div-div-eq-div-mul x 2 (2 ^ k) ∙ ap (λ t. x / t) (omega (arith, pow-suc 2 k)))

pub bit_at-bit_or : (a b k : ℕ) → bit_at (bit_or a b) k ≡ max (bit_at a k) (bit_at b k)
unfolding bit_at
bit_at-bit_or a b zero = omega (arith, bit_or_step a b)
bit_at-bit_or a b (suc k) =
    ap (λ t. bit_at t k) (omega (arith, bit_or_step a b)) ∙ bit_at-bit_or (a / 2) (b / 2) k

pub bit_at-bit_and : (a b k : ℕ) → bit_at (bit_and a b) k ≡ min (bit_at a k) (bit_at b k)
unfolding bit_at
bit_at-bit_and a b zero = omega (arith, bit_and_step a b)
bit_at-bit_and a b (suc k) =
    ap (λ t. bit_at t k) (omega (arith, bit_and_step a b)) ∙ bit_at-bit_and (a / 2) (b / 2) k

pub bit_at-zero : (k : ℕ) → bit_at 0 k ≡ 0
unfolding bit_at
bit_at-zero zero = refl
bit_at-zero (suc k) = bit_at-zero k

half_pow : (k : ℕ) → 2 ^ suc k / 2 ≡ 2 ^ k
half_pow k = omega (arith, pow-suc 2 k)

-- `1 << k` has bit `k` alone.
pub bit_at-pow_self : (k : ℕ) → bit_at (2 ^ k) k ≡ 1
unfolding bit_at
bit_at-pow_self zero = refl
bit_at-pow_self (suc k) = ap (λ t. bit_at t k) (half_pow k) ∙ bit_at-pow_self k

pub bit_at-pow_ne : (j k : ℕ) → j ≢ k → bit_at (2 ^ j) k ≡ 0
unfolding bit_at
bit_at-pow_ne zero zero h = absurd (h refl)
bit_at-pow_ne zero (suc k) h = bit_at-zero k
bit_at-pow_ne (suc j) zero h = omega (arith, pow-suc 2 j)
bit_at-pow_ne (suc j) (suc k) h =
    ap (λ t. bit_at t k) (half_pow j) ∙ bit_at-pow_ne j k (λ e. h (ap suc e))

-- `~x` in a type of `n` bits turns every bit.
pub bit_at-not : (n x k : ℕ) → x < 2 ^ n → k < n → bit_at (2 ^ n - 1 - x) k + bit_at x k ≡ 1
unfolding bit_at
bit_at-not zero x k h lt = absurd (omega arith)
bit_at-not (suc n) x zero h lt = omega (arith, pow-suc 2 n)
bit_at-not (suc n) x (suc k) h lt =
    let e : (2 ^ suc n - 1 - x) / 2 ≡ 2 ^ n - 1 - x / 2 = omega (arith, pow-suc 2 n) in
    ap (λ t. bit_at t k + bit_at (x / 2) k) e
    ∙ bit_at-not n (x / 2) k (omega (arith, pow-suc 2 n)) (omega arith)

pub pow-lt : (j n : ℕ) → j < n → 2 ^ j < 2 ^ n
pow-lt j zero h = absurd (omega arith)
pow-lt zero (suc n) h = omega (arith, pow-suc 2 n, one-le-pow n 2)
pow-lt (suc j) (suc n) h = omega (arith, pow-suc 2 j, pow-suc 2 n, pow-lt j n (omega arith))

-- A word whose bits are all 0 is 0.
pub eq-zero_of_bits : (n x : ℕ) → x < 2 ^ n → ((k : ℕ) → k < n → bit_at x k ≡ 0) → x ≡ 0
unfolding bit_at
eq-zero_of_bits zero x h z = omega arith
eq-zero_of_bits (suc n) x h z = omega (
  arith,
  z 0 (omega arith),
  eq-zero_of_bits n (x / 2) (omega (arith, pow-suc 2 n)) (λ k lt. z (suc k) (omega arith)),
)

bit_or-lt : (n a b : ℕ) → a < 2 ^ n → b < 2 ^ n → bit_or a b < 2 ^ n
bit_or-lt zero a b p q =
    let e : a ≡ 0 = omega arith in
    let f : b ≡ 0 = omega arith in
    omega (arith, bit_or_step a b, ap (λ (t : ℕ). bit_or t 0) e, ap (bit_or a) f)
bit_or-lt (suc n) a b p q = omega (
  arith,
  bit_or_step a b,
  pow-suc 2 n,
  bit_or-lt n (a / 2) (b / 2) (omega (arith, pow-suc 2 n)) (omega (arith, pow-suc 2 n)),
)

pub bit_or-lt_word : (a b : ℕ) → a < 2 ^ 32 → b < 2 ^ 32 → bit_or a b < 2 ^ 32
bit_or-lt_word a b p q = bit_or-lt 32 a b p q

and_zero : (fuel x : ℕ) → x ≤ fuel → bit_and x 0 ≡ 0
and_zero zero x h = let none_left : x ≡ 0 = omega arith in rw none_left
and_zero (suc fuel) x h =
    let half = and_zero fuel (x / 2) (omega arith) in omega (arith, bit_and_step x 0)

-- `x & 1` is the lowest bit.
pub bit_and-one : (x : ℕ) → bit_and x 1 ≡ x % 2
bit_and-one x = eq-zero-part (bit_and_step x 1)
  where
    high : bit_and (x / 2) 0 ≡ 0
    high = and_zero (x / 2) (x / 2) (le_refl _)

    eq-zero-part :
        bit_and x 1 ≡ bit_and (x / 2) (1 / 2) * 2 + min (x % 2) (1 % 2) → bit_and x 1 ≡ x % 2
    eq-zero-part e = omega (arith, high)

pub bit_at-shr : (s x k : ℕ) → bit_at (x / 2 ^ s) k ≡ bit_at x (s + k)
unfolding bit_at
bit_at-shr zero x k =
    ap₂ bit_at {x = x / 2 ^ 0} {y = x} {u = k} {v = 0 + k} (omega arith) (omega arith)
bit_at-shr (suc s) x k =
    ap (λ t. bit_at t k)
      (ap (λ t. x / t) (omega (arith, pow-suc 2 s)) ∙ sym (div-div-eq-div-mul x 2 (2 ^ s)))
    ∙ bit_at-shr s (x / 2) k
    ∙ ap (bit_at x) (let e : suc (s + k) ≡ suc s + k = omega arith in e)

bit_at-mul_low : (s x k : ℕ) → k < s → bit_at (x * 2 ^ s) k ≡ 0
unfolding bit_at
bit_at-mul_low zero x k h = absurd (omega arith)
bit_at-mul_low (suc s) x zero h = omega (arith, ap (λ t. x * t) (pow-suc 2 s))
bit_at-mul_low (suc s) x (suc k) h =
    ap (λ t. bit_at t k)
      (let e : x * 2 ^ suc s / 2 ≡ x * 2 ^ s = omega (arith, ap (λ t. x * t) (pow-suc 2 s)) in e)
    ∙ bit_at-mul_low s x k (omega arith)

bit_at-mul_high : (s x k : ℕ) → s ≤ k → bit_at (x * 2 ^ s) k ≡ bit_at x (k - s)
unfolding bit_at
bit_at-mul_high zero x k h =
    ap₂ bit_at {x = x * 2 ^ 0} {y = x} {u = k} {v = k - 0} (omega arith) (omega arith)
bit_at-mul_high (suc s) x zero h = absurd (omega arith)
bit_at-mul_high (suc s) x (suc k) h =
    ap (λ t. bit_at t k)
      (let e : x * 2 ^ suc s / 2 ≡ x * 2 ^ s = omega (arith, ap (λ t. x * t) (pow-suc 2 s)) in e)
    ∙ bit_at-mul_high s x k (omega arith)
    ∙ ap (bit_at x) (let e : k - s ≡ suc k - suc s = omega arith in e)

half-mod : (n x : ℕ) → x % 2 ^ suc n / 2 ≡ x / 2 % 2 ^ n
half-mod n x =
    let e : 2 * 2 ^ n ≡ 2 ^ n * 2 = omega arith in
    rw (pow-suc 2 n)
      (omega (arith, ap (λ t. 2 ^ n * t) (div-div-eq-div-mul x 2 (2 ^ n) ∙ ap (λ t. x / t) e)))

bit_at-mod : (n x k : ℕ) → k < n → bit_at (x % 2 ^ n) k ≡ bit_at x k
unfolding bit_at
bit_at-mod zero x k h = absurd (omega arith)
bit_at-mod (suc n) x zero h = rw (pow-suc 2 n) (omega arith)
bit_at-mod (suc n) x (suc k) h =
    ap (λ t. bit_at t k) (half-mod n x) ∙ bit_at-mod n (x / 2) k (omega arith)

-- `x << s` in a type of `n` bits.
pub bit_at-shl_low : (n s x k : ℕ) → k < n → k < s → bit_at (x * 2 ^ s % 2 ^ n) k ≡ 0
bit_at-shl_low n s x k h l = bit_at-mod n (x * 2 ^ s) k h ∙ bit_at-mul_low s x k l

pub bit_at-shl_high :
    (n s x k : ℕ) → k < n → s ≤ k → bit_at (x * 2 ^ s % 2 ^ n) k ≡ bit_at x (k - s)
bit_at-shl_high n s x k h l = bit_at-mod n (x * 2 ^ s) k h ∙ bit_at-mul_high s x k l

-- `(1 << c) - 1` has its low `c` bits set.
pub bit_at-ones : (c k : ℕ) → k < c → bit_at (2 ^ c - 1) k ≡ 1
bit_at-ones c k h =
    ap (λ t. bit_at t k) (let e : 2 ^ c - 1 ≡ 2 ^ c - 1 - 0 = omega arith in e)
    ∙ omega (arith, bit_at-not c 0 k (omega (arith, one-le-pow c 2)) h, bit_at-zero k)

pub bit_at-ones_above : (c k : ℕ) → c ≤ k → bit_at (2 ^ c - 1) k ≡ 0
unfolding bit_at
bit_at-ones_above zero k h = bit_at-zero k
bit_at-ones_above (suc c) zero h = absurd (omega arith)
bit_at-ones_above (suc c) (suc k) h =
    ap (λ t. bit_at t k) (let e : (2 ^ suc c - 1) / 2 ≡ 2 ^ c - 1 = omega (arith, pow-suc 2 c) in e)
    ∙ bit_at-ones_above c k (omega arith)

bit_and-lt : (n a b : ℕ) → a < 2 ^ n → bit_and a b < 2 ^ n
bit_and-lt zero a b p =
    let e : a ≡ 0 = omega arith in omega (arith, ap (λ (t : ℕ). bit_and t b) e, zero-bit_and b)
bit_and-lt (suc n) a b p = omega (
  arith,
  bit_and_step a b,
  pow-suc 2 n,
  bit_and-lt n (a / 2) (b / 2) (omega (arith, pow-suc 2 n)),
)

pub bit_and-lt_word : (a b : ℕ) → a < 2 ^ 32 → bit_and a b < 2 ^ 32
bit_and-lt_word a b p = bit_and-lt 32 a b p

-- Bits above the width of a number are 0.
pub bit_at-above : (n x k : ℕ) → x < 2 ^ n → n ≤ k → bit_at x k ≡ 0
unfolding bit_at
bit_at-above zero x k h l = let e : x ≡ 0 = omega arith in ap (λ t. bit_at t k) e ∙ bit_at-zero k
bit_at-above (suc n) x zero h l = absurd (omega arith)
bit_at-above (suc n) x (suc k) h l =
    bit_at-above n (x / 2) k (omega (arith, pow-suc 2 n)) (omega arith)

-- Two words with the same bits are equal.
pub eq_of_bits :
    (n x y : ℕ) → x < 2 ^ n → y < 2 ^ n → ((k : ℕ) → k < n → bit_at x k ≡ bit_at y k) → x ≡ y
unfolding bit_at
eq_of_bits zero x y p q same = omega arith
eq_of_bits (suc n) x y p q same = omega (
  arith,
  same 0 (omega arith),
  eq_of_bits n (x / 2) (y / 2) (omega (arith, pow-suc 2 n)) (omega (arith, pow-suc 2 n))
      (λ k lt. same (suc k) (omega arith)),
)

-- A mask of the bits from `s` to 31 rounds down to a multiple of `2 ^ s`.
pub bit_and-high_mask :
    (s x : ℕ)
    → s ≤ 32
    → x < 2 ^ 32
    → (2 ^ (32 - s) - 1) * 2 ^ s < 2 ^ 32
    → bit_and x ((2 ^ (32 - s) - 1) * 2 ^ s) ≡ x / 2 ^ s * 2 ^ s
bit_and-high_mask s x h p small =
    eq_of_bits 32 _ _ (bit_and-lt_word x _ p) (omega (arith, div-mul-le_self x (2 ^ s))) bits
  where
    mask : ℕ
    mask = (2 ^ (32 - s) - 1) * 2 ^ s

    bits : (k : ℕ) → k < 32 → bit_at (bit_and x mask) k ≡ bit_at (x / 2 ^ s * 2 ^ s) k
    bits k lt = elim (dec_lt k s) [
      | yes low ↦ omega (
        arith,
        bit_at-bit_and x mask k,
        bit_at-mul_low s (2 ^ (32 - s) - 1) k low,
        bit_at-mul_low s (x / 2 ^ s) k low,
      )
      | no high ↦
          let back : bit_at x (s + (k - s)) ≡ bit_at x k = ap (bit_at x) (omega arith) in
          omega (
            arith,
            bit_at-bit_and x mask k,
            bit_at-lt x k,
            bit_at-mul_high s (2 ^ (32 - s) - 1) k (omega arith),
            bit_at-ones (32 - s) (k - s) (omega arith),
            bit_at-mul_high s (x / 2 ^ s) k (omega arith),
            bit_at-shr s x (k - s),
            back,
          )
    ]

-- A mask of the bits below `s` takes the remainder by `2 ^ s`.
pub bit_and-low_mask :
    (s x : ℕ)
    → x < 2 ^ 32
    → x % 2 ^ s < 2 ^ s
    → x % 2 ^ s < 2 ^ 32
    → bit_and x (2 ^ s - 1) ≡ x % 2 ^ s
bit_and-low_mask s x h small fits = eq_of_bits 32 _ _ (bit_and-lt_word x _ h) fits bits
  where
    bits : (k : ℕ) → k < 32 → bit_at (bit_and x (2 ^ s - 1)) k ≡ bit_at (x % 2 ^ s) k
    bits k lt = elim (dec_lt k s) [
      | yes low ↦ omega (
        arith,
        bit_at-bit_and x (2 ^ s - 1) k,
        bit_at-ones s k low,
        bit_at-mod s x k low,
        bit_at-lt x k,
      )
      | no high ↦ omega (
        arith,
        bit_at-bit_and x (2 ^ s - 1) k,
        bit_at-ones_above s k (omega arith),
        bit_at-above s (x % 2 ^ s) k small (omega arith),
      )
    ]
