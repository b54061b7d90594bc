-- ===== src/Library/Bitset/FindRange.antt =====
-- `FindFirstRange`: the two words read at a position, and which ranges are found.
use Prim.Native.Nat.{bit_and}
use native.Mathlib.Nat.{mod-lt, div-le_self}
use xyris.Base.{
  ℕ, zero, suc, ◌+◌, ◌-◌, ◌*◌, ◌/◌, ◌%◌, ◌^◌, ◌≤◌, ◌<◌, ◌≡◌, ◌⊎◌, inl, inr, refl, ap, ap₂, ◌∙◌,
  arith, Bool, true, false, size_max, List, [], ◌∷◌, length, get_or, word, ◌==◌, if◌then◌else◌,
  ==_iff, dec_lt, min, max, ◌↔◌, sub_word, Bool-cases,
}
use xyris.Base.Bits.{
  bit_at, bit_at-lt, bit_at-bit_or, bit_at-bit_and, bit_at-shr, bit_at-shl_low, bit_at-shl_high,
  bit_at-ones, bit_at-ones_above, bit_at-above, eq-zero_of_bits, bit_and-lt_word, bit_or-lt_word,
  bit_at-zero, bit_at-pow_self,
}
use xyris.Base.Loops.{first_from-First, First}
use xyris.Library.Bitset.{Bitset, index, offset, word_at, test, check, mask, find_first_range}
use xyris.Library.Bitset.Bits.{Fits, Fits-get_or, bit, bit-lt, test-bit}

get_or-default : (ws : List ℕ) (i d e : ℕ) → i < length ws → get_or ws i d ≡ get_or ws i e
get_or-default [] i d e h = absurd (omega arith)
get_or-default (w ∷ ws) zero d e h = refl
get_or-default (w ∷ ws) (suc i) d e h = get_or-default ws i d e (omega arith)

-- The set's array holds `n` bits exactly, and each word fits.
pub record IsWhole (n : ℕ) (b : Bitset) : Type 0 where
  pub fits : Fits b.words
  pub whole : n ≡ 32 * length b.words
  pub small : n ≤ size_max

-- `checkHigh` for an offset `o` and the next word.
abbrev high : ℕ → ℕ → ℕ
high o next = if o == 0 then 0 else next * 2 ^ (32 - o) % word

high-lt : (o next : ℕ) → high o next < word
high-lt o next = ground (arith, mod-lt (next * 2 ^ (32 - o)) {m = word})

high_low : (o next k : ℕ) → o + k < 32 → bit_at (high o next) k ≡ 0
high_low o next k h = elim (Bool-cases (o == 0)) [
  | inl e ↦ rw e (bit_at-zero k)
  | inr ne ↦ rw ne (bit_at-shl_low 32 (32 - o) next k (omega arith) (omega arith))
]

high_above :
    (o next k : ℕ)
    → o < 32
    → k < 32
    → 32 ≤ o + k
    → bit_at (high o next) k ≡ bit_at next (o + k - 32)
high_above o next k small h l = elim (Bool-cases (o == 0)) [
  | inl e ↦ absurd (ground arith)
  | inr ne ↦ rw ne (
      bit_at-shl_high 32 (32 - o) next k h (ground arith)
      ∙ ap (bit_at next) (let r : k - (32 - o) ≡ o + k - 32 = ground arith in r))
]

module _ (beyond : ℕ) {n : ℕ} (b : Bitset) (v : IsWhole n b) (i k : ℕ) (h : k < 32) where
  abbrev first : ℕ
  first = word_at b (index i)

  abbrev next : ℕ
  next = get_or b.words (index i + 1) beyond

  check_split :
      bit_at (check beyond b i) k
      ≡ max (bit_at first (offset i + k)) (bit_at (high (offset i) next) k)
  unfolding check
  check_split =
      bit_at-bit_or (first / 2 ^ offset i) (high (offset i) next) k
      ∙ ap (λ t. max t (bit_at (high (offset i) next) k)) (bit_at-shr (offset i) first k)

  check_low : offset i + k < 32 → bit_at (check beyond b i) k ≡ bit b (i + k)
  check_low l =
      let same : bit_at first (offset i + k) ≡ bit b (i + k) =
        ap₂ (λ p q. bit_at (word_at b p) q) {x = index i} {y = index (i + k)} {u = offset i + k}
          {v = offset (i + k)} (omega arith) (omega arith) in
      omega (arith, check_split, same, high_low (offset i) next k l)

  check_high : 32 ≤ offset i + k → i + k < n → bit_at (check beyond b i) k ≡ bit b (i + k)
  check_high l below =
      let above : bit_at first (offset i + k) ≡ 0 =
        bit_at-above 32 first (offset i + k) (Fits-get_or b.words (index i) 0 v.fits (omega arith))
          l in
      let inside : next ≡ word_at b (index i + 1) =
        get_or-default b.words (index i + 1) beyond 0 (omega (arith, v.whole)) in
      let same : bit_at next (offset i + k - 32) ≡ bit b (i + k) =
        ap (λ t. bit_at t (offset i + k - 32)) inside
        ∙ ap₂ (λ p q. bit_at (word_at b p) q) {x = index i + 1} {y = index (i + k)}
            {u = offset i + k - 32} {v = offset (i + k)} (omega arith) (omega arith) in
      omega (arith, check_split, above, high_above (offset i) next k (omega arith) h l, same)

  -- Bit `k` of the value checked at `i` is the set's bit at `i + k`, whatever lies behind the array.
  check-bit : i + k < n → bit_at (check beyond b i) k ≡ bit b (i + k)
  check-bit below = elim (dec_lt (offset i + k) 32) [
    | yes l ↦ check_low l
    | no l ↦ check_high (omega arith) below
  ]

-- The `count` bits from position `i` on are clear.
abbrev pub IsClearRange : Bitset → ℕ → ℕ → Type 0
IsClearRange b i count = (k : ℕ) → k < count → test b (i + k) ≡ false

test-false_iff : (b : Bitset) (p : ℕ) → (test b p ≡ false) ↔ (bit b p ≡ 0)
test-false_iff b p = ground (arith, test-bit b p, bit-lt b p)

module _ (beyond : ℕ) (n : ℕ) (b : Bitset) (v : IsWhole n b) (count i : ℕ)
    (small : count < 32) where
  abbrev masked : ℕ
  masked = bit_and (check beyond b i) (mask count)

  masked_bit : (k : ℕ) → bit_at masked k ≡ min (bit_at (check beyond b i) k) (bit_at (mask count) k)
  masked_bit k = bit_at-bit_and (check beyond b i) (mask count) k

  check-lt : check beyond b i < word
  unfolding check
  check-lt =
      let first : ℕ = word_at b (index i) in
      let fits : first < word = Fits-get_or b.words (index i) 0 v.fits (omega arith) in
      bit_or-lt_word _ _ (omega (arith, div-le_self first (2 ^ offset i)))
        (high-lt (offset i) (get_or b.words (index i + 1) beyond))

  -- The masked value is 0 exactly where the range is clear.
  masked_clear : i + count ≤ n → masked ≡ 0 → IsClearRange b i count
  masked_clear fits e k h = (test-false_iff b (i + k)).1 (
      omega (
        arith,
        masked_bit k,
        ap (λ t. bit_at t k) e,
        bit_at-zero k,
        bit_at-ones count k h,
        bit_at-lt (check beyond b i) k,
        check-bit beyond b v i k (omega arith) (omega arith),
      ))

  clear_masked : i + count ≤ n → IsClearRange b i count → masked ≡ 0
  clear_masked fits c = eq-zero_of_bits 32 masked (bit_and-lt_word _ _ check-lt) bits
    where
      bits : (k : ℕ) → k < 32 → bit_at masked k ≡ 0
      bits k h = elim (dec_lt k count) [
        | yes l ↦ omega (
          arith,
          masked_bit k,
          check-bit beyond b v i k h (omega arith),
          (test-false_iff b (i + k)).0 (c k l),
        )
        | no l ↦ omega (arith, masked_bit k, bit_at-ones_above count k (omega arith))
      ]

-- `r` starts the first clear range of the positions below `end`, or is `npos` where there is none.
abbrev pub FirstRange : ℕ → Bitset → ℕ → ℕ → Type 0
FirstRange end b count r =
    ((r < end) × IsClearRange b r count × ((j : ℕ) → j < r → ¬ IsClearRange b j count))
    ⊎ ((r ≡ size_max) × ((j : ℕ) → j < end → ¬ IsClearRange b j count))

module _ (beyond : ℕ) (n : ℕ) (b : Bitset) (v : IsWhole n b) (count : ℕ) (small : count < 32)
    (fits : count ≤ n) where
  hit_at : ℕ → Bool
  hit_at i = bit_and (check beyond b i) (mask count) == 0

  hit_clear : (i : ℕ) → i + count ≤ n → hit_at i ≡ true → IsClearRange b i count
  unfolding hit_at
  hit_clear i h e = masked_clear beyond n b v count i small h ((==_iff _ 0).0 e)

  miss_taken : (i : ℕ) → i + count ≤ n → hit_at i ≡ false → ¬ IsClearRange b i count
  unfolding hit_at
  miss_taken i h e c =
      let is_zero =
        (==_iff (bit_and (check beyond b i) (mask count)) 0).1
          (clear_masked beyond n b v count i small h c) in
      cc

  First-FirstRange : (r : ℕ) → First hit_at 0 (n - count) r → FirstRange (n - count) b count r
  First-FirstRange r (inl (p, q, found, before)) = inl (
    q,
    hit_clear r (omega arith) found,
    λ j h. miss_taken j (omega arith) (before j (omega arith) h),
  )
  First-FirstRange r (inr (p, all)) =
      inr (p, λ j h. miss_taken j (omega arith) (all j (omega arith) h))

  -- `FindFirstRange(count, false)`, for a count below 32, returns the first position below
  -- `t_num_bits - count` from which `count` bits are clear, and `npos` only where no such position
  -- starts a clear range. What lies behind the array does not matter.
  pub find_first_range_lem :
      FirstRange (n - count) b count (find_first_range beyond n b count false)
  unfolding find_first_range hit_at
  find_first_range_lem =
      First-FirstRange _
        (first_from-First hit_at (sub_word n count) 0 (n - count) (omega (arith, v.small)))

module _ (beyond : ℕ) (n : ℕ) (b : Bitset) (v : IsWhole n b) (count i : ℕ) (two : 2 ≤ count)
    (small : count < 32) (fits : i + count ≤ n) where
  one_bit :
      (k : ℕ) → k < 2 → bit_and (check beyond b i) (mask count) ≡ 1 → bit b (i + k) ≡ bit_at 1 k
  one_bit k h e = omega (
    arith,
    masked_bit beyond n b v count i small k,
    ap (λ t. bit_at t k) e,
    bit_at-ones count k (omega arith),
    bit_at-lt (check beyond b i) k,
    check-bit beyond b v i k (omega arith) (omega arith),
  )

  set_then_clear :
      (bit_and (check beyond b i) (mask count) == 1) ≡ true
      → (test b i ≡ true) × (test b (i + 1) ≡ false)
  set_then_clear h =
      let e = (==_iff (bit_and (check beyond b i) (mask count)) 1).0 h in
      let here : bit b i ≡ 1 =
        ap (λ t. bit b t) (let r : i ≡ i + 0 = omega arith in r)
        ∙ one_bit 0 (omega arith) e
        ∙ bit_at-pow_self 0 in
      let there : bit b (i + 1) ≡ 0 =
        one_bit 1 (omega arith) e ∙ bit_at-ones_above 1 1 (omega arith) in
      (rw (test-bit b i, here), rw (test-bit b (i + 1), there))

-- `FindFirstRange(count, true)` compares the masked bits with 1: for a count of two or more, what it
-- finds is a set bit followed by a clear one, never a range of set bits.
pub find_set_range_misses :
    (beyond n : ℕ) (b : Bitset) (count : ℕ)
    → IsWhole n b
    → 2 ≤ count
    → count < 32
    → count ≤ n
    → let r = find_first_range beyond n b count true in
      (r ≡ size_max) ⊎ ((test b r ≡ true) × (test b (r + 1) ≡ false))
unfolding find_first_range
find_set_range_misses beyond n b count v two small fits =
    conclude (first_from-First hit (sub_word n count) 0 (n - count) (omega (arith, v.small)))
  where
    hit : ℕ → Bool
    hit i = bit_and (check beyond b i) (mask count) == 1

    conclude :
        {r : ℕ}
        → First hit 0 (n - count) r
        → (r ≡ size_max) ⊎ ((test b r ≡ true) × (test b (r + 1) ≡ false))
    conclude {r} (inl (p, q, found, _)) =
        inr (set_then_clear beyond n b v count r two small (omega arith) found)
    conclude (inr (p, _)) = inl p
