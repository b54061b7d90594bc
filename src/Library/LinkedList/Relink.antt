-- ===== src/Library/LinkedList/Relink.antt =====
-- How a change of the pointers at the border of two halves of a list relinks the halves.
use xyris.Base.{◌≡◌, ◌≢◌, sym, ◌∙◌, ℕ, List, [], ◌∷◌, ◌++◌}
use xyris.Base.Pointers.{Outside, last_or, Outside-last, Outside-left, Outside-right}
use xyris.Library.LinkedList.Links.{
  first_or, Apart, Nexts, Prevs, Apart-left, Apart-right, Outside-null, Outside-last_or,
  Outside-first_or, last-ne_null,
}

-- `new` agrees with `old` but at `n` and `p`.
abbrev pub Agrees : (ℕ → ℕ) → (ℕ → ℕ) → ℕ → ℕ → Type 0
Agrees old new n p = (q : ℕ) → q ≢ 0 → q ≢ n → q ≢ p → new q ≡ old q

pub Nexts-Agrees :
    (old new : ℕ → ℕ) (n p : ℕ) (xs : List ℕ) (after : ℕ)
    → Agrees old new n p
    → Apart xs
    → Outside n xs
    → Outside p xs
    → Nexts old xs after
    → Nexts new xs after
Nexts-Agrees old new n p [] after same a on op h = tt
Nexts-Agrees old new n p (x ∷ xs) after same (nn, out, a) (ne, on) (pe, op) (e, h) = (
  same x nn (λ q. ne (sym q)) (λ q. pe (sym q)) ∙ e,
  Nexts-Agrees old new n p xs after same a on op h,
)

pub Prevs-Agrees :
    (old new : ℕ → ℕ) (n p before : ℕ) (xs : List ℕ)
    → Agrees old new n p
    → Apart xs
    → Outside n xs
    → Outside p xs
    → Prevs old before xs
    → Prevs new before xs
Prevs-Agrees old new n p before [] same a on op h = tt
Prevs-Agrees old new n p before (x ∷ xs) same (nn, out, a) (ne, on) (pe, op) (e, h) = (
  same x nn (λ q. ne (sym q)) (λ q. pe (sym q)) ∙ e,
  Prevs-Agrees old new n p x xs same a on op h,
)

Nexts-ends :
    (old new : ℕ → ℕ) (n x : ℕ) (xs : List ℕ) (a b : ℕ)
    → Agrees old new n (last_or x xs)
    → new (last_or x xs) ≡ b
    → Apart (x ∷ xs)
    → Outside n (x ∷ xs)
    → Nexts old (x ∷ xs) a
    → Nexts new (x ∷ xs) b
Nexts-ends old new n x [] a b same end ap on h = (end, tt)
Nexts-ends old new n x (y ∷ ys) a b same end (nn, out, ap) (ne, on) (e, h) = (
  same x nn (λ q. ne (sym q)) (Outside-last x y ys out) ∙ e,
  Nexts-ends old new n y ys a b same end ap on h,
)

-- The half in front now ends in front of `b`.
pub Nexts-relink :
    (old new : ℕ → ℕ) (n : ℕ) (xs : List ℕ) (a b : ℕ)
    → Agrees old new n (last_or 0 xs)
    → (last_or 0 xs ≢ 0 → new (last_or 0 xs) ≡ b)
    → Apart xs
    → Outside n xs
    → Nexts old xs a
    → Nexts new xs b
Nexts-relink old new n [] a b same end ap on h = tt
Nexts-relink old new n (x ∷ xs) a b same end ap on h =
    Nexts-ends old new n x xs a b same (end (last-ne_null x xs ap)) ap on h

-- The half behind now begins behind `b`.
pub Prevs-relink :
    (old new : ℕ → ℕ) (n a b : ℕ) (ys : List ℕ)
    → Agrees old new n (first_or 0 ys)
    → (first_or 0 ys ≢ 0 → new (first_or 0 ys) ≡ b)
    → Apart ys
    → Outside n ys
    → Prevs old a ys
    → Prevs new b ys
Prevs-relink old new n a b [] same start ap on h = tt
Prevs-relink old new n a b (y ∷ ys) same start (nn, out, ap) (ne, on) (e, h) =
    (start nn, Prevs-Agrees old new n y y ys same ap on out h)

-- Both halves keep their inner links when `next` changes at the end of the first one only.
pub Nexts-halves :
    (old new : ℕ → ℕ) (n : ℕ) (xs ys : List ℕ) (a b : ℕ)
    → Agrees old new n (last_or 0 xs)
    → (last_or 0 xs ≢ 0 → new (last_or 0 xs) ≡ b)
    → Apart (xs ++ ys)
    → Outside n (xs ++ ys)
    → Nexts old xs a
    → Nexts old ys 0
    → Nexts new xs b × Nexts new ys 0
Nexts-halves old new n xs ys a b same end ap on h k = (
  Nexts-relink old new n xs a b same end (Apart-left xs ys ap) (Outside-left n xs ys on) h,
  Nexts-Agrees old new n (last_or 0 xs) ys 0 same right (Outside-right n xs ys on)
      (Outside-last_or 0 xs ys (Outside-null ys right) ap) k,
)
  where
    right : Apart ys
    right = Apart-right xs ys ap

pub Prevs-halves :
    (old new : ℕ → ℕ) (n : ℕ) (xs ys : List ℕ) (a b : ℕ)
    → Agrees old new n (first_or 0 ys)
    → (first_or 0 ys ≢ 0 → new (first_or 0 ys) ≡ b)
    → Apart (xs ++ ys)
    → Outside n (xs ++ ys)
    → Prevs old 0 xs
    → Prevs old a ys
    → Prevs new 0 xs × Prevs new b ys
Prevs-halves old new n xs ys a b same start ap on h k = (
  Prevs-Agrees old new n (first_or 0 ys) 0 xs same (Apart-left xs ys ap) (Outside-left n xs ys on)
      (Outside-first_or xs ys ap) h,
  Prevs-relink old new n a b ys same start (Apart-right xs ys ap) (Outside-right n xs ys on) k,
)
