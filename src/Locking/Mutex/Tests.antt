-- ===== src/Locking/Mutex/Tests.antt =====
-- Schedules of two tasks, and the mutex's theorems at the states that they reach.
use xyris.Base.{ℕ, ◌≡◌, refl, true}
use xyris.Locking.Mutex.{Mutex, mutex, Reach, here, later, call_lock, try_take}
use xyris.Locking.Mutex.Safety.{Sleeps, mutual_exclusion, lost_wakeup}

-- Task 0 took the mutex by `tryLock`, and task 1 has called `lock`.
abbrev contended : (s : Mutex) × Reach mutex s
contended = (_, later 1 (later 0 here (try_take refl refl)) (call_lock refl))

mutual_exclusion_example : (◌≡◌ {A = ℕ} 0 0) × (contended.0.is_locked ≡ true)
mutual_exclusion_example = mutual_exclusion contended.1 0 0 refl refl

lost_wakeup_example : (t : Mutex) × Reach mutex t × Sleeps 1 t
lost_wakeup_example = lost_wakeup contended.1 0 1 refl refl
