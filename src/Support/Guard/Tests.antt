-- ===== src/Support/Guard/Tests.antt =====
-- A schedule of one task, and the theorem at the state that it reaches.
use xyris.Base.{ℕ, ◌≡◌, refl, false}
use xyris.Support.Guard.{Guard, guard, Reach, here, later, enter, lock, start}
use xyris.Support.Guard.Safety.{initializes_once}

abbrev begun : (s : Guard) × Reach guard s
begun =
    (_, later 3 (later 3 (later 3 here (enter refl refl)) (lock refl refl)) (start refl refl refl))

initializes_once_example : (◌≡◌ {A = ℕ} 3 3) × (begun.0.initialized ≡ false)
initializes_once_example = initializes_once begun.1 3 3 refl refl
