-- ===== src/Base/Pointers.antt =====
-- Lists of pointers: a pointer outside of a list, and the last one of a list.
use xyris.Base.{ℕ, ◌≡◌, ◌≢◌, refl, List, [], ◌∷◌, ◌++◌}

-- `a` is none of the pointers `xs`.
abbrev pub Outside : ℕ → List ℕ → Type 0
Outside a [] = Unit {0}
Outside a (x ∷ xs) = (a ≢ x) × Outside a xs

-- The last pointer, or `d` where there is none.
abbrev pub last_or : ℕ → List ℕ → ℕ
last_or d [] = d
last_or d (x ∷ xs) = last_or x xs

pub Outside-append : (a : ℕ) (xs ys : List ℕ) → Outside a xs → Outside a ys → Outside a (xs ++ ys)
Outside-append a [] ys o p = p
Outside-append a (x ∷ xs) ys (ne, o) p = (ne, Outside-append a xs ys o p)

pub Outside-last : (a y : ℕ) (ys : List ℕ) → Outside a (y ∷ ys) → a ≢ last_or y ys
Outside-last a y [] o = o.0
Outside-last a y (z ∷ zs) o = Outside-last a z zs o.1

pub last_or-append : (d : ℕ) (xs : List ℕ) (t : ℕ) → last_or d (xs ++ (t ∷ [])) ≡ t
last_or-append d [] t = refl
last_or-append d (x ∷ xs) t = last_or-append x xs t

pub Outside-left : (a : ℕ) (xs ys : List ℕ) → Outside a (xs ++ ys) → Outside a xs
Outside-left a [] ys o = tt
Outside-left a (x ∷ xs) ys (ne, o) = (ne, Outside-left a xs ys o)

pub Outside-right : (a : ℕ) (xs ys : List ℕ) → Outside a (xs ++ ys) → Outside a ys
Outside-right a [] ys o = o
Outside-right a (x ∷ xs) ys (ne, o) = Outside-right a xs ys o

pub last_or-behind :
    (d : ℕ) (xs : List ℕ) (z : ℕ) (zs : List ℕ) → last_or d (xs ++ (z ∷ zs)) ≡ last_or z zs
last_or-behind d [] z zs = refl
last_or-behind d (x ∷ xs) z zs = last_or-behind x xs z zs

pub Outside-drop :
    (a : ℕ) (xs : List ℕ) (t : ℕ) (ys : List ℕ) → Outside a (xs ++ (t ∷ ys)) → Outside a (xs ++ ys)
Outside-drop a [] t ys o = o.1
Outside-drop a (x ∷ xs) t ys (ne, o) = (ne, Outside-drop a xs t ys o)
