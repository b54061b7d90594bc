-- ===== src/Locking/Mutex.antt =====
-- Kernel/Locking/Mutex.cpp: any number of tasks that call `lock`, `tryLock` and, while they hold the
-- mutex, `unlock`. A step is one atomic access or one call of the scheduler, which runs with its lock
-- held; between two steps any other task may run.
pub mod Safety
mod Tests
use xyris.Base.{ℕ, Bool, true, false, ◌≡◌}
use xyris.Locking.{update}

-- Where a task stands.
pub data Pc : Type 0 where
  outside : Pc  -- in none of the three functions, without the mutex
  trying : Pc  -- at the test of the loop of `lock`
  refused : Pc  -- the test found the mutex taken; before `tasks_sync_block`
  blocked : Pc  -- in `tasks_sync_block`, on the list of waiting tasks
  holding : Pc  -- `lock` or `tryLock` has returned true
  cleared : Pc  -- in `unlock`, before `tasks_sync_unblock`

-- `m_isLocked`, and the tasks.
pub record Mutex : Type 0 where
  pub is_locked : Bool
  pub pc : ℕ → Pc

-- `Mutex(name)`: no task is in a function.
abbrev pub mutex : Mutex
mutex = record { is_locked = false; pc = λ _. outside }

-- `tasks_sync_unblock` wakes every waiting task; each goes on at the test of its loop.
abbrev pub woken : Pc → Pc
woken blocked = trying
woken p = p

-- One step of task `i`.
pub data Step (s : Mutex) (i : ℕ) : Mutex → Type 0 where
  call_lock : s.pc i ≡ outside → Step s i (record s { pc = update s.pc i trying })
  take :
      s.pc i ≡ trying
      → s.is_locked ≡ false
      → Step s i (record { is_locked = true; pc = update s.pc i holding })
  refuse :
      s.pc i ≡ trying
      → s.is_locked ≡ true
      → Step s i (record { is_locked = true; pc = update s.pc i refused })
  block : s.pc i ≡ refused → Step s i (record s { pc = update s.pc i blocked })
  try_take :
      s.pc i ≡ outside
      → s.is_locked ≡ false
      → Step s i (record { is_locked = true; pc = update s.pc i holding })
  try_fail :
      s.pc i ≡ outside → s.is_locked ≡ true → Step s i (record { is_locked = true; pc = s.pc })
  clear : s.pc i ≡ holding → Step s i (record { is_locked = false; pc = update s.pc i cleared })
  unblock : s.pc i ≡ cleared → Step s i (record s { pc = update (λ j. woken (s.pc j)) i outside })

-- What the steps lead to from `s`.
pub data Reach (s : Mutex) : Mutex → Type 0 where
  here : Reach s s
  later : {t u : Mutex} (i : ℕ) → Reach s t → Step t i u → Reach s u
