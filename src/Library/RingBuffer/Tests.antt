-- ===== src/Library/RingBuffer/Tests.antt =====
-- Runs of the ring buffer, and its theorems at a buffer whose contents go round the array's end.
use xyris.Base.{ℕ, ◌≡◌, refl, some, none, List, [], ◌∷◌, arith}
use xyris.Library.Errno.{invalid_value, buffer_full}
use xyris.Library.RingBuffer.{
  RingBuffer, success, failure, Call, enqueues, dequeues, dequeues_value, peeks, size, last_error,
  status, value, count, code, call, run,
}
use xyris.Library.RingBuffer.Invariant.{IsValid}
use xyris.Library.RingBuffer.Refine.{contents, answers, run_refines}

-- 8, then 9, round the end of three slots.
abbrev wrapped : RingBuffer ℕ
wrapped = record { items = 9 ∷ 7 ∷ 8 ∷ []; head = 1; tail = 2; length = 2; error = buffer_full }

abbrev script : List (Call ℕ)
script =
    enqueues 1
    ∷ enqueues 2
    ∷ peeks
    ∷ dequeues
    ∷ dequeues_value
    ∷ size
    ∷ dequeues
    ∷ dequeues
    ∷ last_error
    ∷ []

wrapped-IsValid : IsValid 3 wrapped
wrapped-IsValid = omega arith

run-wrapped :
    run 3 0 wrapped script
    ≡ status success none
      ∷ status failure none
      ∷ status success (some 8)
      ∷ status success (some 8)
      ∷ value 9
      ∷ count 1
      ∷ status success (some 1)
      ∷ status failure none
      ∷ code invalid_value
      ∷ []
unfolding run call
run-wrapped = refl

run_refines_example :
    run 3 0 wrapped script ≡ answers 3 0 (contents 3 0 wrapped) wrapped.error script
run_refines_example = run_refines 3 0 script wrapped-IsValid
