-- ===== src/Locking/Semaphore.antt =====
-- Kernel/Locking/Semaphore.cpp: any number of tasks that call `wait`, `tryWait` and `post`. A step is
-- one atomic access to the count or one call of the scheduler. `timeWait` is `wait` without the block.
pub mod Counting
mod Tests
use xyris.Base.{ℕ, ◌+◌, ◌-◌, ◌%◌, ◌^◌, ◌≡◌, ◌≢◌}
use xyris.Locking.{update}

-- How a waiting task waits while the count is 0.
pub data Mode : Type 0 where
  sleeps : Mode  -- `wait`
  gives_up : Mode  -- `tryWait`
  spins : Mode  -- `timeWait`, which does not look at its time

-- Where a task stands; `cur_val` is the local variable `curVal`.
pub data Pc : Type 0 where
  outside : Pc
  loading : Mode → Pc  -- before `count()`
  loaded : Mode → (cur_val : ℕ) → Pc  -- at the test of `curVal == 0`
  comparing : Mode → (cur_val : ℕ) → Pc  -- at the compare-exchange
  blocking : Pc  -- before `tasks_sync_block`
  blocked : Pc  -- on the list of waiting tasks
  posting : Pc  -- in `post`, before `tasks_sync_unblock`

-- `m_count`, the tasks, and how many waits have succeeded and how many posts were made.
pub record Semaphore : Type 0 where
  pub count : ℕ
  pub pc : ℕ → Pc
  pub waits : ℕ
  pub posts : ℕ

-- `Semaphore(val, share, name)`
abbrev pub semaphore : ℕ → Semaphore
semaphore val = record { count = val; pc = λ _. outside; waits = 0; posts = 0 }

-- A woken task loads the count again.
abbrev pub woken : Pc → Pc
woken blocked = loading sleeps
woken p = p

-- One step of task `i`.
pub data Step (s : Semaphore) (i : ℕ) : Semaphore → Type 0 where
  call : (m : Mode) → s.pc i ≡ outside → Step s i (record s { pc = update s.pc i (loading m) })
  load :
      (m : Mode)
      → s.pc i ≡ loading m
      → Step s i (record s { pc = update s.pc i (loaded m s.count) })
  test :
      (m : Mode) (v : ℕ)
      → s.pc i ≡ loaded m v
      → v ≢ 0
      → Step s i (record s { pc = update s.pc i (comparing m v) })
  see_zero :
      (v : ℕ)
      → s.pc i ≡ loaded sleeps v
      → v ≡ 0
      → Step s i (record s { pc = update s.pc i blocking })
  give_up :
      (v : ℕ)
      → s.pc i ≡ loaded gives_up v
      → v ≡ 0
      → Step s i (record s { pc = update s.pc i outside })
  spin :
      (v : ℕ)
      → s.pc i ≡ loaded spins v
      → v ≡ 0
      → Step s i (record s { pc = update s.pc i (loading spins) })
  block : s.pc i ≡ blocking → Step s i (record s { pc = update s.pc i blocked })
  exchange :
      (m : Mode) (v : ℕ)
      → s.pc i ≡ comparing m v
      → s.count ≡ v
      → Step s i (record s { count = v - 1; pc = update s.pc i outside; waits = s.waits + 1 })
  fail :
      (m : Mode) (v : ℕ)
      → s.pc i ≡ comparing m v
      → s.count ≢ v
      → Step s i (record s { pc = update s.pc i (loaded m s.count) })
  add :
      s.pc i ≡ outside
      → Step s i (record s {
        count = (s.count + 1) % 2 ^ 32;
        pc = update s.pc i posting;
        posts = s.posts + 1;
      })
  unblock : s.pc i ≡ posting → Step s i (record s { pc = update (λ j. woken (s.pc j)) i outside })

pub data Reach (s : Semaphore) : Semaphore → Type 0 where
  here : Reach s s
  later : {t u : Semaphore} (i : ℕ) → Reach s t → Step t i u → Reach s u
