-- ===== src/Support/Guard.antt =====
-- Kernel/Support/cxa_guard.cpp: tasks that come to one static variable's initialization. A step is one
-- access to the guard or to the mutex `cxaGuard`; between two steps any other task may run.
pub mod Safety
mod Tests
use xyris.Base.{ℕ, Bool, true, false, ◌≡◌}
use xyris.Locking.{update}

-- Where a task stands.
pub data Pc : Type 0 where
  outside : Pc
  waiting : Pc  -- in `__cxa_guard_acquire`, before the mutex
  checking : Pc  -- in `__cxa_guard_acquire`, with the mutex
  running : Pc  -- `__cxa_guard_acquire` has returned 1: the initializer runs
  releasing : Pc  -- in `__cxa_guard_release`, before the unlock
  aborting : Pc  -- in `__cxa_guard_abort`, behind the unlock

-- `initialized` and `inuse` of the guard, and the mutex.
pub record Guard : Type 0 where
  pub initialized : Bool
  pub in_use : Bool
  pub is_locked : Bool
  pub pc : ℕ → Pc
  pub panicked : Bool

abbrev pub guard : Guard
guard = record {
  initialized = false;
  in_use = false;
  is_locked = false;
  pc = λ _. outside;
  panicked = false;
}

-- One step of task `i`.
pub data Step (s : Guard) (i : ℕ) : Guard → Type 0 where
  skip : s.pc i ≡ outside → s.initialized ≡ true → Step s i s
  enter :
      s.pc i ≡ outside → s.initialized ≡ false → Step s i (record s { pc = update s.pc i waiting })
  lock :
      s.pc i ≡ waiting
      → s.is_locked ≡ false
      → Step s i (record s { is_locked = true; pc = update s.pc i checking })
  late :
      s.pc i ≡ checking
      → s.initialized ≡ true
      → Step s i (record s { is_locked = false; pc = update s.pc i outside })
  panic :
      s.pc i ≡ checking
      → s.initialized ≡ false
      → s.in_use ≡ true
      → Step s i (record s { panicked = true })
  start :
      s.pc i ≡ checking
      → s.initialized ≡ false
      → s.in_use ≡ false
      → Step s i (record s { in_use = true; pc = update s.pc i running })
  finish :
      s.pc i ≡ running → Step s i (record s { initialized = true; pc = update s.pc i releasing })
  unlock :
      s.pc i ≡ releasing → Step s i (record s { is_locked = false; pc = update s.pc i outside })
  abort : s.pc i ≡ running → Step s i (record s { is_locked = false; pc = update s.pc i aborting })
  reset : s.pc i ≡ aborting → Step s i (record s { in_use = false; pc = update s.pc i outside })

-- What the steps lead to from `s`.
pub data Reach (s : Guard) : Guard → Type 0 where
  here : Reach s s
  later : {t u : Guard} (i : ℕ) → Reach s t → Step t i u → Reach s u
