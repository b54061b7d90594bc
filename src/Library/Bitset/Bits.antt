-- ===== src/Library/Bitset/Bits.antt =====
-- What `Set`, `Clear` and `Flip` do to every bit of a well-formed set.
use xyris.Base.{
  ℕ, zero, suc, ◌-◌, ◌/◌, ◌^◌, ◌<◌, ◌≡◌, ◌≢◌, sym, ap, ◌∙◌, arith, Bool, true, false, not, List, [],
  ◌∷◌, ◌==◌, if◌then◌else◌, length, get_or, set, get_or-set_self, length-set, length-replicate,
  replicate, get_or-replicate_default, get_or-set_ne, word, size_max, ℕ_discrete,
}
use Prim.Native.Nat.{bit_and, bit_or}
use xyris.Base.Bits.{
  bit_at, bit_at-lt, bit_at-shift, bit_and-one, bit_at-bit_or, bit_at-bit_and, bit_at-pow_self,
  bit_at-pow_ne, bit_at-zero, bit_at-not, pow-lt, bit_or-lt_word, bit_and-lt_word,
}
use xyris.Library.Bitset.{Bitset, index, offset, word_at, init, set_bit, clear, test, flip}

-- Every word fits 32 bits.
abbrev pub Fits : List ℕ → Type 0
Fits [] = Unit {0}
Fits (w ∷ ws) = (w < word) × Fits ws

-- `pos` lies inside the array.
abbrev pub Inside : Bitset → ℕ → Type 0
Inside b pos = index pos < length b.words

pub Fits-get_or : (ws : List ℕ) (i d : ℕ) → Fits ws → d < word → get_or ws i d < word
Fits-get_or [] i d f h = h
Fits-get_or (w ∷ ws) zero d f h = f.0
Fits-get_or (w ∷ ws) (suc i) d f h = Fits-get_or ws i d f.1 h

Fits-set : (ws : List ℕ) (i v : ℕ) → Fits ws → v < word → Fits (set ws i v)
Fits-set [] i v f h = tt
Fits-set (w ∷ ws) zero v f h = (h, f.1)
Fits-set (w ∷ ws) (suc i) v f h = (f.0, Fits-set ws i v f.1 h)

-- The bit at a position of the array.
abbrev pub bit : Bitset → ℕ → ℕ
bit b pos = bit_at (word_at b (index pos)) (offset pos)

pub bit-lt : (b : Bitset) (pos : ℕ) → bit b pos < 2
bit-lt b pos = bit_at-lt (word_at b (index pos)) (offset pos)

pub test-bit : (b : Bitset) (pos : ℕ) → test b pos ≡ (bit b pos == 1)
unfolding test
test-bit b pos =
    let w = word_at b (index pos) / 2 ^ offset pos in
    ground (arith, bit_and-one w, bit_at-shift (word_at b (index pos)) (offset pos))

-- `1UL << Offset(pos)` fits a word.
single-lt : (pos : ℕ) → 2 ^ offset pos < word
single-lt pos = pow-lt (offset pos) 32 (omega arith)

pub set_bit-Fits : (b : Bitset) (pos : ℕ) → Fits b.words → Fits (set_bit b pos).words
unfolding set_bit
set_bit-Fits b pos f =
    Fits-set b.words (index pos) _ f
      (bit_or-lt_word _ _ (Fits-get_or b.words (index pos) 0 f (omega arith)) (single-lt pos))

pub clear-Fits : (b : Bitset) (pos : ℕ) → Fits b.words → Fits (clear b pos).words
unfolding clear
clear-Fits b pos f =
    Fits-set b.words (index pos) _ f
      (bit_and-lt_word _ _ (Fits-get_or b.words (index pos) 0 f (omega arith)))

module _ (b : Bitset) (p q : ℕ) (inside : Inside b p) where
  read_same : (v : ℕ) → index p ≡ index q → get_or (set b.words (index p) v) (index q) 0 ≡ v
  read_same v e = rw (← e) (get_or-set_self b.words (index p) v 0 inside)

  read_other :
      (v : ℕ)
      → index p ≢ index q
      → get_or (set b.words (index p) v) (index q) 0 ≡ word_at b (index q)
  read_other v ne = get_or-set_ne b.words (index p) (index q) v 0 ne

  offset_ne : p ≢ q → index p ≡ index q → offset p ≢ offset q
  offset_ne ne e = omega arith

  bit-set_bit_self : p ≡ q → bit (set_bit b p) q ≡ 1
  unfolding set_bit
  bit-set_bit_self e =
      let w = word_at b (index p) in
      ap (λ t. bit_at t (offset q)) (read_same (bit_or w (2 ^ offset p)) (ap index e))
      ∙ bit_at-bit_or w (2 ^ offset p) (offset q)
      ∙ (let one : bit_at (2 ^ offset p) (offset q) ≡ 1 =
            ap (λ t. bit_at (2 ^ offset p) (offset t)) (sym e) ∙ bit_at-pow_self (offset p) in
          omega (arith, one, bit_at-lt w (offset q)))

  bit-set_bit_ne : p ≢ q → bit (set_bit b p) q ≡ bit b q
  unfolding set_bit
  bit-set_bit_ne ne = elim (ℕ_discrete (index p) (index q)) [
    | yes e ↦
        let w = word_at b (index p) in
        ap (λ t. bit_at t (offset q)) (read_same (bit_or w (2 ^ offset p)) e)
        ∙ bit_at-bit_or w (2 ^ offset p) (offset q)
        ∙ omega (arith, bit_at-pow_ne (offset p) (offset q) (offset_ne ne e))
        ∙ ap (λ t. bit_at (word_at b t) (offset q)) e
    | no other ↦ ap (λ t. bit_at t (offset q)) (read_other _ other)
  ]

  bit-clear_self : p ≡ q → bit (clear b p) q ≡ 0
  unfolding clear
  bit-clear_self e =
      let w = word_at b (index p) in
      ap (λ t. bit_at t (offset q)) (read_same (bit_and w (size_max - 2 ^ offset p)) (ap index e))
      ∙ bit_at-bit_and w (size_max - 2 ^ offset p) (offset q)
      ∙ (let one : bit_at (2 ^ offset p) (offset q) ≡ 1 =
            ap (λ t. bit_at (2 ^ offset p) (offset t)) (sym e) ∙ bit_at-pow_self (offset p) in
          omega (arith, one, bit_at-not 32 (2 ^ offset p) (offset q) (single-lt p) (omega arith)))

  bit-clear_ne : p ≢ q → bit (clear b p) q ≡ bit b q
  unfolding clear
  bit-clear_ne ne = elim (ℕ_discrete (index p) (index q)) [
    | yes e ↦
        let w = word_at b (index p) in
        ap (λ t. bit_at t (offset q)) (read_same (bit_and w (size_max - 2 ^ offset p)) e)
        ∙ bit_at-bit_and w (size_max - 2 ^ offset p) (offset q)
        ∙ omega (
          arith,
          bit_at-lt w (offset q),
          bit_at-pow_ne (offset p) (offset q) (offset_ne ne e),
          bit_at-not 32 (2 ^ offset p) (offset q) (single-lt p) (omega arith),
        )
        ∙ ap (λ t. bit_at (word_at b t) (offset q)) e
    | no other ↦ ap (λ t. bit_at t (offset q)) (read_other _ other)
  ]

  -- After `Set(p)` the bit at `p` is set, and every other bit is as it was.
  pub test-set_bit : test (set_bit b p) q ≡ (if p == q then true else test b q)
  test-set_bit =
      ground (arith, test-bit (set_bit b p) q, test-bit b q, bit-set_bit_self, bit-set_bit_ne)

  -- After `Clear(p)` the bit at `p` is clear, and every other bit is as it was.
  pub test-clear : test (clear b p) q ≡ (if p == q then false else test b q)
  test-clear = ground (arith, test-bit (clear b p) q, test-bit b q, bit-clear_self, bit-clear_ne)

-- `Flip(p)` turns the bit at `p`, and no other.
pub test-flip :
    (b : Bitset) (p q : ℕ)
    → Inside b p
    → test (flip b p) q ≡ (if p == q then not (test b p) else test b q)
unfolding flip
test-flip b p q inside = ground (arith, test-set_bit b p q inside, test-clear b p q inside)

pub length-set_bit : (b : Bitset) (p : ℕ) → length (set_bit b p).words ≡ length b.words
unfolding set_bit
length-set_bit b p = length-set b.words _ _

pub length-clear : (b : Bitset) (p : ℕ) → length (clear b p).words ≡ length b.words
unfolding clear
length-clear b p = length-set b.words _ _

pub length-init : (n : ℕ) (value : Bool) → length (init n value).words ≡ n / 32
unfolding init
length-init n value = length-replicate (n / 32) _

pub Fits-replicate : (n v : ℕ) → v < word → Fits (replicate n v)
Fits-replicate zero v h = tt
Fits-replicate (suc n) v h = (h, Fits-replicate n v h)

-- A set whose words are all zero has no bit set, not even behind its end.
pub test-zeros : (b : Bitset) (n q : ℕ) → b.words ≡ replicate n 0 → test b q ≡ false
test-zeros b n q e =
    let none_there : bit b q ≡ 0 =
      ap (λ ws. bit_at (get_or ws (index q) 0) (offset q)) e
      ∙ ap (λ w. bit_at w (offset q)) (get_or-replicate_default n (index q) 0)
      ∙ bit_at-zero (offset q) in
    ground (arith, test-bit b q, none_there)
