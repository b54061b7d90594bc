-- ===== src/Locking.antt =====
-- Kernel/Locking: the mutex and the semaphore, under tasks that are interleaved in any order.
pub mod Mutex
pub mod Semaphore
use xyris.Base.{ℕ, ◌==◌, if◌then◌else◌}

-- The family `f` with `a` at `i`.
abbrev pub update {ℓ} : {A : Type ℓ} → (ℕ → A) → ℕ → A → ℕ → A
update f i a j = if i == j then a else f j
