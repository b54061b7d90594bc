-- ===== src/Library/RingBuffer/Refine/Contents.antt =====
-- What a single call does to the values that a ring buffer holds.
use xyris.Base.{
  ℕ, ◌≡◌, refl, sym, ap, ◌∙◌, arith, true, false, ◌==◌, List, [], ◌∷◌, ◌++◌, length, ◌<◌,
}
use xyris.Library.RingBuffer.{
  RingBuffer, init, call, enqueues, dequeues_value, Reply, value, enqueue, dequeue_value, is_empty,
}
use xyris.Library.RingBuffer.Invariant.{IsValid}
use xyris.Library.RingBuffer.Refine.{answer, contents, stored, length-stored, call_refines}

module _ {A : Type 0} (s : ℕ) (zero_val : A) where
  replied : Reply A → A
  replied (value a) = a
  replied _ = zero_val

  pub length-contents : (r : RingBuffer A) → length (contents s zero_val r) ≡ r.length
  length-contents r = length-stored s zero_val r.items r.tail r.length

  -- A value goes behind the others while there is room.
  pub contents-enqueue :
      (r : RingBuffer A) (x : A)
      → IsValid s r
      → length (contents s zero_val r) < s
      → contents s zero_val (enqueue s r x).1 ≡ contents s zero_val r ++ (x ∷ [])
  unfolding call answer
  contents-enqueue r x v room =
      let more : (length (contents s zero_val r) == s) ≡ false = ground arith in
      ap (λ p. p.1.values) (call_refines s zero_val (enqueues x) v) ∙ rw more refl

  -- The oldest value is taken.
  pub contents-dequeue_value :
      (r : RingBuffer A) (x : A) (q : List A)
      → IsValid s r
      → contents s zero_val r ≡ x ∷ q
      → (is_empty r ≡ false)
        × ((dequeue_value s zero_val r).0 ≡ x)
        × (contents s zero_val (dequeue_value s zero_val r).1 ≡ q)
  unfolding call answer is_empty replied
  contents-dequeue_value r x q v e =
      let size = sym (length-contents r) ∙ ap length e in
      let both =
        call_refines s zero_val dequeues_value v
        ∙ ap (λ c. answer s zero_val c r.error dequeues_value) e in
      (ground arith, ap (λ p. replied p.0) both, ap (λ p. p.1.values) both)

  pub contents-empty : (r : RingBuffer A) → contents s zero_val r ≡ [] → is_empty r ≡ true
  unfolding is_empty
  contents-empty r e = let size = sym (length-contents r) ∙ ap length e in ground arith

  -- A new buffer holds nothing.
  pub contents-init : (storage : List A) → contents s zero_val (init storage) ≡ []
  unfolding init stored
  contents-init storage = refl
