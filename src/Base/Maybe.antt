-- ===== src/Base/Maybe.antt =====
-- Option as the monad of steps that may have no result.
use mathlib.Core.Path.{◌≡◌, refl}
use mathlib.Core.Option.{Option, none, some}

infixl 5 ◌>>=◌
abbrev pub ◌>>=◌ {ℓ κ} : {A : Type ℓ} {B : Type κ} → Option A → (A → Option B) → Option B
none >>= f = none
some a >>= f = f a

-- What follows two steps that have a result gets that result.
pub bind-then {ℓ κ} :
    {A : Type ℓ} {B C : Type κ} (a : Option A) (g : A → Option B) (h : B → Option C) {u : B}
    → (a >>= g) ≡ some u
    → (a >>= λ x. g x >>= h) ≡ h u
bind-then none g h e = cc
bind-then (some a) g h e = rw e refl
