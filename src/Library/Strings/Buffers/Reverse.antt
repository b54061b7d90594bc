-- ===== src/Library/Strings/Buffers/Reverse.antt =====
-- `reverse` turns a string round.
use xyris.Base.{
  ℕ, zero, suc, ◌+◌, ◌-◌, ◌≤◌, ◌<◌, ◌≡◌, subst, ap, ap₂, ◌∙◌, arith, ◌&&◌, leb, ltb, if◌then◌else◌,
  Bool-cases, inl, inr,
}
use xyris.Library.Memory.{Bytes}
use xyris.Library.Strings.Buffers.{swapped, reverse_loop, reverse}
use xyris.Library.Strings.Buffers.Copies.{IsText, Leaves, Leaves-trans, strlen_lem}

-- The memory with the bytes from `p` up to and with `r` in reverse order.
abbrev pub mirrored : Bytes → ℕ → ℕ → Bytes
mirrored m p r q = if leb p q && leb q r then m (p + r - q) else m q

mirrored-swapped :
    (m : Bytes) (p r q : ℕ) → p < r → mirrored (swapped m p r) (p + 1) (r - 1) q ≡ mirrored m p r q
mirrored-swapped m p r q h =
    let inner : m (p + 1 + (r - 1) - q) ≡ m (p + r - q) =
      ap m (let e : p + 1 + (r - 1) - q ≡ p + r - q = omega arith in e) in
    let first : q ≡ p → m (p + r - q) ≡ m r =
      λ at. ap m (let e : p + r - q ≡ r = omega arith in e) in
    let last : q ≡ r → m (p + r - q) ≡ m p =
      λ at. ap m (let e : p + r - q ≡ p = omega arith in e) in
    ground (arith, inner, first, last)

reverse_loop_lem :
    (n : ℕ) (m : Bytes) (s i j : ℕ)
    → j + 2 ≤ i + n + n
    → 0 < n
    → Leaves (reverse_loop n m s i j) (mirrored m (s + i) (s + j))
unfolding reverse_loop
reverse_loop_lem zero m s i j h pos = absurd (omega arith)
reverse_loop_lem (suc n) m s i j h pos = elim (Bool-cases (ltb i j)) [
  | inl more ↦
      let low : s + (i + 1) ≡ s + i + 1 = omega arith in
      let high : s + (j - 1) ≡ s + j - 1 = ground arith in
      rw more (
        Leaves-trans _ _ _
          (reverse_loop_lem n (swapped m (s + i) (s + j)) s (i + 1) (j - 1) (ground arith)
            (ground arith))
          (λ q.
            ap₂ (λ p r. mirrored (swapped m (s + i) (s + j)) p r q) low high
            ∙ mirrored-swapped m (s + i) (s + j) q (ground arith)))
  | inr done ↦ rw done (λ q.
      let only : i ≡ j → q ≡ s + i → m q ≡ m (s + i + (s + j) - q) =
        λ same at. ap m (let e : q ≡ s + i + (s + j) - q = ground arith in e) in
      ground (arith, only))
]

-- `reverse` ends, with as many rounds as the string has characters and one more; it leaves the
-- characters in reverse order and changes nothing else.
pub reverse-mirrors :
    (n : ℕ) (m : Bytes) (s k : ℕ)
    → IsText m s (suc k)
    → suc k < n
    → Leaves (reverse n m s) (mirrored m s (s + k))
unfolding reverse
reverse-mirrors n m s k t h =
    let last : suc k - 1 ≡ k = omega arith in
    let at : s + 0 ≡ s = omega arith in
    rw (strlen_lem n m s (suc k) t h, last)
      (subst (λ p. Leaves (reverse_loop n m s 0 k) (mirrored m p (s + k))) at
        (reverse_loop_lem n m s 0 k (omega arith) (omega arith)))
