-- ===== src/Library/RingBuffer/Invariant.antt =====
-- The representation invariant of `RingBuffer`: indices stay inside the array, sums do not wrap.
use native.Mathlib.Nat.{mod-add-mod}
use xyris.Base.{
  ℕ, ◌+◌, ◌-◌, ◌%◌, ◌≤◌, ◌<◌, ◌≡◌, ◌≢◌, ap, ap₂, sym, ◌∙◌, arith, List, length, length-set,
  add_word, sub_word, size_max,
}
use xyris.Library.RingBuffer.{
  RingBuffer, Call, enqueues, dequeues, dequeues_value, peeks, size, last_error, init, enqueue,
  is_empty, is_full, dequeue, dequeue_value, peek, call,
}

pub record IsValid {ℓ} {A : Type ℓ} (s : ℕ) (r : RingBuffer A) : Type 0 where
  pub positive : 0 < s
  pub small : s ≤ size_max
  pub storage : s ≤ length r.items
  pub head_in : r.head < s
  pub tail_in : r.tail < s
  pub length_in : r.length ≤ s
  pub linked : r.head ≡ (r.tail + r.length) % s

module _ {ℓ} {A : Type ℓ} (s : ℕ) where
  pub init-IsValid :
      (storage : List A) → 0 < s → s ≤ size_max → s ≤ length storage → IsValid s (init storage)
  unfolding init
  init-IsValid storage p q h = ground arith

  -- Every index that a method uses lies in the array.
  pub in_bounds :
      {r : RingBuffer A} → IsValid s r → (r.head < length r.items) × (r.tail < length r.items)
  in_bounds v = omega arith

  pub no_wrap :
      {r : RingBuffer A}
      → IsValid s r
      → (add_word r.head 1 ≡ r.head + 1) × (add_word r.tail 1 ≡ r.tail + 1)
  no_wrap v = omega arith

  linked_step :
      {r : RingBuffer A}
      → IsValid s r
      → r.length ≢ s
      → add_word r.head 1 % s ≡ (r.tail + add_word r.length 1) % s
  linked_step {r} v ne =
      ap (λ k. k % s) (let e : add_word r.head 1 ≡ r.head + 1 = omega arith in e)
      ∙ ap (λ k. (k + 1) % s) v.linked
      ∙ mod-add-mod (r.tail + r.length) s 1
      ∙ ap (λ k. k % s)
          (let e : r.tail + r.length + 1 ≡ r.tail + add_word r.length 1 = omega arith in e)

  pub enqueue-IsValid : {r : RingBuffer A} (x : A) → IsValid s r → IsValid s (enqueue s r x).1
  unfolding enqueue is_full
  enqueue-IsValid {r} x v = ground (arith, length-set r.items r.head x, linked_step v)

module _ {ℓ} {A : Type ℓ} (s : ℕ) (zero_val : A) {r : RingBuffer A} (v : IsValid s r) where
  tail_step : r.length ≢ 0 → r.head ≡ (add_word r.tail 1 % s + sub_word r.length 1) % s
  tail_step ne =
      let forth : r.tail + r.length ≡ r.tail + 1 + (r.length - 1) = omega arith in
      let back : (r.tail + 1) % s + (r.length - 1) ≡ add_word r.tail 1 % s + sub_word r.length 1 =
        ap₂ (λ a b. a % s + b) (omega arith) (omega arith) in
      v.linked
      ∙ ap (λ k. k % s) forth
      ∙ sym (mod-add-mod (r.tail + 1) s (r.length - 1))
      ∙ ap (λ k. k % s) back

  pub dequeue-IsValid : IsValid s (dequeue s zero_val r).2
  unfolding dequeue is_empty
  dequeue-IsValid = ground (arith, tail_step)

  pub dequeue_value-IsValid : IsValid s (dequeue_value s zero_val r).1
  unfolding dequeue_value is_empty
  dequeue_value-IsValid = ground (arith, tail_step)

  peek-IsValid : IsValid s (peek s zero_val r).2
  unfolding peek is_empty
  peek-IsValid = ground arith

  pub call-IsValid : (c : Call A) → IsValid s (call s zero_val r c).1
  unfolding call
  call-IsValid (enqueues x) = enqueue-IsValid s x v
  call-IsValid dequeues = dequeue-IsValid
  call-IsValid dequeues_value = dequeue_value-IsValid
  call-IsValid peeks = peek-IsValid
  call-IsValid size = v
  call-IsValid last_error = v
