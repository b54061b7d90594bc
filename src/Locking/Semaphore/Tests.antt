-- ===== src/Locking/Semaphore/Tests.antt =====
-- A schedule of one task, and the semaphore's theorem at the state that it reaches.
use xyris.Base.{◌+◌, ◌≡◌, ◌≤◌, refl, arith}
use xyris.Locking.Semaphore.{
  Semaphore, semaphore, Mode, Reach, here, later, call, load, test, exchange,
}
use xyris.Locking.Semaphore.Counting.{count_balance}

-- Task 0 has waited, with the initial value 2.
abbrev waited : (s : Semaphore) × Reach (semaphore 2) s
waited = (
  _,
  later 0
      (later 0 (later 0 (later 0 here (call Mode.sleeps refl)) (load Mode.sleeps refl))
        (test Mode.sleeps 2 refl (omega arith)))
      (exchange Mode.sleeps 2 refl refl),
)

count_balance_example :
    (waited.0.count + waited.0.waits ≡ 2 + waited.0.posts) × (waited.0.waits ≤ 2 + waited.0.posts)
count_balance_example = count_balance waited.1 (omega arith)
