-- ===== src/Library/RingBuffer/Refine.antt =====
-- A valid `RingBuffer` behaves as a FIFO of at most `S` values with a record of the last error.
pub mod Contents
use native.Mathlib.Nat.{mod-lt, le_refl, mod-add-mod, mod-eq_of_lt, mod-eq-sub-mod}
use xyris.Base.{
  ℕ, zero, suc, ◌+◌, ◌-◌, ◌%◌, ◌≤◌, ◌<◌, ◌≡◌, ◌≢◌, refl, sym, ap, ap₂, ◌∙◌, arith, none, some, List,
  [], ◌∷◌, ◌++◌, length, get_or, set, get_or-set_self, get_or-set_ne, ◌==◌, if◌then◌else◌, dec_lt,
  length-append, add_word, sub_word, size_max,
}
use xyris.Library.Errno.{KernelError, buffer_full, invalid_value}
use xyris.Library.RingBuffer.{
  RingBuffer, Status, success, failure, Call, enqueues, dequeues, dequeues_value, peeks, size,
  last_error, Reply, status, value, count, code, call, run,
}
use xyris.Library.RingBuffer
use xyris.Library.RingBuffer.Invariant.{IsValid, call-IsValid}

-- The specification: the values, oldest first, and the code of the last call that failed.
pub record Fifo {ℓ} (A : Type ℓ) : Type ℓ where
  pub values : List A
  pub error : KernelError

module _ {A : Type 0} (s : ℕ) (zero_val : A) where
  -- A call on the oldest-first list of values; `e` is the error so far.
  pub answer : List A → KernelError → Call A → Reply A × Fifo A
  answer q e (enqueues v) =
      if length q == s
      then (status failure none, record { values = q; error = buffer_full })
      else (status success none, record { values = q ++ (v ∷ []); error = e })
  answer [] e dequeues = (status failure none, record { values = []; error = invalid_value })
  answer (x ∷ q) e dequeues = (status success (some x), record { values = q; error = e })
  answer [] e dequeues_value = (value zero_val, record { values = []; error = invalid_value })
  answer (x ∷ q) e dequeues_value = (value x, record { values = q; error = e })
  answer [] e peeks = (status failure none, record { values = []; error = invalid_value })
  answer (x ∷ q) e peeks = (status success (some x), record { values = x ∷ q; error = e })
  answer q e size = (count (length q), record { values = q; error = e })
  answer q e last_error = (code e, record { values = q; error = e })

  pub answers : List A → KernelError → List (Call A) → List (Reply A)
  unfolding answer
  answers q e [] = []
  answers q e (c ∷ cs) = let (reply, f) = answer q e c in reply ∷ answers f.values f.error cs

module _ {A : Type 0} (s : ℕ) (zero_val : A) where
  -- The `n` values from index `t` on, round the array.
  pub stored : List A → ℕ → ℕ → List A
  stored xs t zero = []
  stored xs t (suc n) = stored xs t n ++ (get_or xs ((t + n) % s) zero_val ∷ [])

  pub length-stored : (xs : List A) (t n : ℕ) → length (stored xs t n) ≡ n
  unfolding stored
  length-stored xs t zero = refl
  length-stored xs t (suc n) = omega (
    arith,
    length-stored xs t n,
    length-append (stored xs t n) (get_or xs ((t + n) % s) zero_val ∷ []),
  )

  -- The oldest value comes first.
  stored-front :
      (xs : List A) (t n : ℕ)
      → stored xs t (suc n) ≡ get_or xs (t % s) zero_val ∷ stored xs ((t + 1) % s) n
  unfolding stored
  stored-front xs t zero = ap (λ k. get_or xs (k % s) zero_val ∷ []) (omega arith)
  stored-front xs t (suc n) =
      ap₂ (λ q k. q ++ (get_or xs k zero_val ∷ [])) (stored-front xs t n)
        (let e : t + suc n ≡ t + 1 + n = omega arith in rw (e, mod-add-mod (t + 1) s n))

  -- Two positions less than a whole round apart are different.
  round_ne : (t i j : ℕ) → i < j → j < i + s → (t + i) % s ≢ (t + j) % s
  round_ne t i j lt near e =
      let at : ℕ = (t + i) % s in
      let below : at < s = mod-lt (t + i) (omega arith) in
      let same : at ≡ (at + (j - i)) % s =
        e
        ∙ ap (λ k. k % s) (let r : t + j ≡ t + i + (j - i) = omega arith in r)
        ∙ sym (mod-add-mod (t + i) s (j - i)) in
      elim (dec_lt (at + (j - i)) s) [
        | yes p ↦ omega (arith, same, mod-eq_of_lt p)
        | no p ↦ omega (
          arith,
          same,
          mod-eq-sub-mod {n = at + (j - i)} {m = s} (omega arith),
          mod-eq_of_lt {n = at + (j - i) - s} {m = s} (omega arith),
        )
      ]

  stored-set :
      (xs : List A) (t n j : ℕ) (v : A)
      → n ≤ j
      → j < s
      → stored (set xs ((t + j) % s) v) t n ≡ stored xs t n
  unfolding stored
  stored-set xs t zero j v h k = refl
  stored-set xs t (suc n) j v h k =
      ap₂ (λ q x. q ++ (x ∷ [])) (stored-set xs t n j v (omega arith) k)
        (get_or-set_ne xs ((t + j) % s) ((t + n) % s) v zero_val
          (λ e. round_ne t n j (omega arith) (omega arith) (sym e)))

  abbrev pub contents : RingBuffer A → List A
  contents r = stored r.items r.tail r.length

  abbrev pub view : Reply A × RingBuffer A → Reply A × Fifo A
  view p = (p.0, record { values = contents p.1; error = p.1.error })

  -- The buffer answers as the queue that it holds, and is left holding the queue's new state.
  abbrev pub Answers : RingBuffer A → Call A → Type 0
  Answers r c = view (call s zero_val r c) ≡ answer s zero_val (contents r) r.error c

  stored-zero : (xs : List A) (t n : ℕ) → n ≡ 0 → stored xs t n ≡ []
  unfolding stored
  stored-zero xs t zero e = refl
  stored-zero xs t (suc n) e = absurd (omega arith)

  stored-ne :
      (xs : List A) (t n : ℕ)
      → n ≢ 0
      → t < s
      → s ≤ size_max
      → n ≤ s
      → stored xs t n ≡ get_or xs t zero_val ∷ stored xs (add_word t 1 % s) (sub_word n 1)
  stored-ne xs t zero ne h p q = absurd (ne refl)
  stored-ne xs t (suc n) ne h p q =
      rw (stored-front xs t n, mod-eq_of_lt h)
        (ap₂ (λ a b. get_or xs t zero_val ∷ stored xs (a % s) b) (omega arith) (omega arith))

  emptied : (r : RingBuffer A) → r.length ≡ 0 → contents r ≡ []
  emptied r e = stored-zero r.items r.tail r.length e

  extended_at :
      (xs : List A) (t n h : ℕ) (x : A)
      → h ≡ (t + n) % s
      → n < s
      → h < length xs
      → stored (set xs h x) t (suc n) ≡ stored xs t n ++ (x ∷ [])
  unfolding stored
  extended_at xs t n h x e below inside =
      let same : stored (set xs h x) t n ≡ stored xs t n =
        rw e (stored-set xs t n n x (le_refl n) below) in
      let new : get_or (set xs h x) ((t + n) % s) zero_val ≡ x =
        rw (← e) (get_or-set_self xs h x zero_val inside) in
      ap₂ (λ q y. q ++ (y ∷ [])) same new

  -- One more value is stored by writing it at `head`.
  extended :
      {r : RingBuffer A} (x : A)
      → IsValid s r
      → r.length ≢ s
      → stored (set r.items r.head x) r.tail (add_word r.length 1) ≡ contents r ++ (x ∷ [])
  extended {r} x v ne =
      ap (stored (set r.items r.head x) r.tail) (omega arith)
      ∙ extended_at r.items r.tail r.length r.head x v.linked (omega arith) (omega arith)

  enqueue_refines : {r : RingBuffer A} (x : A) → IsValid s r → Answers r (enqueues x)
  unfolding call answer RingBuffer.enqueue RingBuffer.is_full
  enqueue_refines {r} x v = ground (arith, length-stored r.items r.tail r.length, extended x v)

  dequeue_refines : {r : RingBuffer A} → IsValid s r → Answers r dequeues
  unfolding call answer RingBuffer.dequeue RingBuffer.is_empty
  dequeue_refines {r} v = ground (arith, emptied r, stored-ne r.items r.tail r.length)

  dequeue_value_refines : {r : RingBuffer A} → IsValid s r → Answers r dequeues_value
  unfolding call answer RingBuffer.dequeue_value RingBuffer.is_empty
  dequeue_value_refines {r} v = ground (arith, emptied r, stored-ne r.items r.tail r.length)

  peek_refines : {r : RingBuffer A} → IsValid s r → Answers r peeks
  unfolding call answer RingBuffer.peek RingBuffer.is_empty
  peek_refines {r} v = ground (arith, emptied r, stored-ne r.items r.tail r.length)

  size_refines : (r : RingBuffer A) → Answers r size
  unfolding call answer
  size_refines r =
      ap (λ n. (count n, record { values = contents r; error = r.error }))
        (sym (length-stored r.items r.tail r.length))

  -- Every call on a valid buffer returns what the bounded queue of its contents returns, and leaves
  -- the buffer with the queue's new contents and error code.
  pub call_refines : {r : RingBuffer A} (c : Call A) → IsValid s r → Answers r c
  unfolding call answer
  call_refines (enqueues x) v = enqueue_refines x v
  call_refines dequeues v = dequeue_refines v
  call_refines dequeues_value v = dequeue_value_refines v
  call_refines peeks v = peek_refines v
  call_refines {r} size v = size_refines r
  call_refines last_error v = refl

  -- No sequence of calls tells a valid buffer from the bounded queue of its contents.
  pub run_refines :
      (cs : List (Call A)) {r : RingBuffer A}
      → IsValid s r
      → run s zero_val r cs ≡ answers s zero_val (contents r) r.error cs
  unfolding run answers
  run_refines [] v = refl
  run_refines (c ∷ cs) {r} v = rw (run_refines cs (call-IsValid s zero_val v c), ← call_refines c v)
