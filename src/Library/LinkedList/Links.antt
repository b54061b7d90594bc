-- ===== src/Library/LinkedList/Links.antt =====
-- Which nodes a linked list holds, in order, and what keeps the two chains of pointers.
use xyris.Base.{ℕ, ◌+◌, ◌<◌, ◌≡◌, ◌≢◌, refl, sym, ◌∙◌, List, [], ◌∷◌, ◌++◌, length, word}
use xyris.Base.Pointers.{Outside, last_or, Outside-append, Outside-left, Outside-right}
use xyris.Library.LinkedList.{LinkedList}

-- The first of the pointers, or `d` where there is none.
abbrev pub first_or : ℕ → List ℕ → ℕ
first_or d [] = d
first_or d (p ∷ ps) = p

-- No pointer is NULL, and none stands twice.
abbrev pub Apart : List ℕ → Type 0
Apart [] = Unit {0}
Apart (p ∷ ps) = (p ≢ 0) × Outside p ps × Apart ps

-- `next` leads from each node to the one behind it, from the last one to `after`.
abbrev pub Nexts : (ℕ → ℕ) → List ℕ → ℕ → Type 0
Nexts next [] after = Unit {0}
Nexts next (p ∷ ps) after = (next p ≡ first_or after ps) × Nexts next ps after

-- `prev` leads from each node to the one in front of it, from the first one to `before`.
abbrev pub Prevs : (ℕ → ℕ) → ℕ → List ℕ → Type 0
Prevs prev before [] = Unit {0}
Prevs prev before (p ∷ ps) = (prev p ≡ before) × Prevs prev p ps

-- The list holds the nodes `ps`, in this order.
pub record Holds {A : Type 0} (l : LinkedList A) (ps : List ℕ) : Type 0 where
  pub apart : Apart ps
  pub nexts : Nexts (λ p. (l.nodes p).next) ps 0
  pub prevs : Prevs (λ p. (l.nodes p).prev) 0 ps
  pub head : l.head ≡ first_or 0 ps
  pub tail : l.tail ≡ last_or 0 ps
  pub count : l.count ≡ length ps
  pub small : length ps < word

pub Apart-left : (xs ys : List ℕ) → Apart (xs ++ ys) → Apart xs
Apart-left [] ys h = tt
Apart-left (x ∷ xs) ys (nn, out, h) = (nn, Outside-left x xs ys out, Apart-left xs ys h)

pub Apart-right : (xs ys : List ℕ) → Apart (xs ++ ys) → Apart ys
Apart-right [] ys h = h
Apart-right (x ∷ xs) ys (nn, out, h) = Apart-right xs ys h

pub Outside-null : (ps : List ℕ) → Apart ps → Outside 0 ps
Outside-null [] h = tt
Outside-null (p ∷ ps) (nn, out, h) = ((λ e. nn (sym e)), Outside-null ps h)

-- The last of the pointers in front is none of those behind.
pub Outside-last_or :
    (d : ℕ) (xs ys : List ℕ) → Outside d ys → Apart (xs ++ ys) → Outside (last_or d xs) ys
Outside-last_or d [] ys out h = out
Outside-last_or d (x ∷ xs) ys out (nn, right, h) =
    Outside-last_or x xs ys (Outside-right x xs ys right) h

-- The first of the pointers behind is none of those in front.
pub Outside-first_or : (xs ys : List ℕ) → Apart (xs ++ ys) → Outside (first_or 0 ys) xs
Outside-first_or [] ys h = tt
Outside-first_or (x ∷ xs) [] (nn, out, h) = ((λ e. nn (sym e)), Outside-first_or xs [] h)
Outside-first_or (x ∷ xs) (y ∷ ys) (nn, out, h) =
    ((λ e. (Outside-right x xs (y ∷ ys) out).0 (sym e)), Outside-first_or xs (y ∷ ys) h)

-- A new pointer between two halves.
pub Apart-insert :
    (xs ys : List ℕ) (n : ℕ)
    → n ≢ 0
    → Outside n (xs ++ ys)
    → Apart (xs ++ ys)
    → Apart (xs ++ (n ∷ ys))
Apart-insert [] ys n nn out h = (nn, out, h)
Apart-insert (x ∷ xs) ys n nn (ne, out) (nx, right, h) = (
  nx,
  Outside-append x xs (n ∷ ys) (Outside-left x xs ys right)
      ((λ e. ne (sym e)), Outside-right x xs ys right),
  Apart-insert xs ys n nn out h,
)

pub first_or-append : (d : ℕ) (xs ys : List ℕ) → first_or d (xs ++ ys) ≡ first_or (first_or d ys) xs
first_or-append d [] ys = refl
first_or-append d (x ∷ xs) ys = refl

pub last_or-split : (d : ℕ) (xs ys : List ℕ) → last_or d (xs ++ ys) ≡ last_or (last_or d xs) ys
last_or-split d [] ys = refl
last_or-split d (x ∷ xs) ys = last_or-split x xs ys

pub Nexts-join :
    (next : ℕ → ℕ) (xs ys : List ℕ) (after : ℕ)
    → Nexts next xs (first_or after ys)
    → Nexts next ys after
    → Nexts next (xs ++ ys) after
Nexts-join next [] ys after h k = k
Nexts-join next (x ∷ xs) ys after (e, h) k =
    (e ∙ sym (first_or-append after xs ys), Nexts-join next xs ys after h k)

pub Nexts-split :
    (next : ℕ → ℕ) (xs ys : List ℕ) (after : ℕ)
    → Nexts next (xs ++ ys) after
    → Nexts next xs (first_or after ys) × Nexts next ys after
Nexts-split next [] ys after h = (tt, h)
Nexts-split next (x ∷ xs) ys after (e, h) =
    let rest = Nexts-split next xs ys after h in ((e ∙ first_or-append after xs ys, rest.0), rest.1)

pub Prevs-join :
    (prev : ℕ → ℕ) (before : ℕ) (xs ys : List ℕ)
    → Prevs prev before xs
    → Prevs prev (last_or before xs) ys
    → Prevs prev before (xs ++ ys)
Prevs-join prev before [] ys h k = k
Prevs-join prev before (x ∷ xs) ys (e, h) k = (e, Prevs-join prev x xs ys h k)

pub Prevs-split :
    (prev : ℕ → ℕ) (before : ℕ) (xs ys : List ℕ)
    → Prevs prev before (xs ++ ys)
    → Prevs prev before xs × Prevs prev (last_or before xs) ys
Prevs-split prev before [] ys h = (tt, h)
Prevs-split prev before (x ∷ xs) ys (e, h) =
    let rest = Prevs-split prev x xs ys h in ((e, rest.0), rest.1)

pub last-ne_null : (x : ℕ) (xs : List ℕ) → Apart (x ∷ xs) → last_or x xs ≢ 0
last-ne_null x [] (nn, out, h) = nn
last-ne_null x (y ∷ ys) (nn, out, h) = last-ne_null y ys h

-- A node that may be `new` for `l`, which holds `ps`.
pub record Fresh (n : ℕ) (ps : List ℕ) : Type 0 where
  pub not_null : n ≢ 0
  pub outside : Outside n ps
  pub room : length ps + 1 < word

pub ne-last_or : (n : ℕ) (xs : List ℕ) → n ≢ 0 → Outside n xs → n ≢ last_or 0 xs
ne-last_or n [] nn out = nn
ne-last_or n (x ∷ xs) nn out = go n x xs out
  where
    go : (n x : ℕ) (xs : List ℕ) → Outside n (x ∷ xs) → n ≢ last_or x xs
    go n x [] out = out.0
    go n x (y ∷ ys) out = go n y ys out.1

pub ne-first_or : (n : ℕ) (ys : List ℕ) → n ≢ 0 → Outside n ys → n ≢ first_or 0 ys
ne-first_or n [] nn out = nn
ne-first_or n (y ∷ ys) nn out = out.0

pub Nexts-last :
    (next : ℕ → ℕ) (x : ℕ) (xs : List ℕ) (after : ℕ)
    → Nexts next (x ∷ xs) after
    → next (last_or x xs) ≡ after
Nexts-last next x [] after h = h.0
Nexts-last next x (y ∷ ys) after h = Nexts-last next y ys after h.1
