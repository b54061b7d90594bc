-- ===== src/Scheduler/TaskList/Chain.antt =====
-- Which tasks a list links, in order.
use xyris.Base.{◌≡◌, ◌≢◌, subst, sym, List, [], ◌∷◌, ◌++◌, arith}
use xyris.Base.Pointers.{
  Outside, last_or, Outside-append, Outside-last, Outside-left, Outside-right, Outside-drop,
}
use xyris.Scheduler.Task.{Ptr, null, Task, Store, write, set_next}
use xyris.Scheduler.TaskList.{Linked}

-- From `p` the `next` pointers lead through the distinct tasks `xs` to `stop`.
abbrev pub Chain : Store → Ptr → List Ptr → Ptr → Type 0
Chain m stop [] p = p ≡ stop
Chain m stop (x ∷ xs) p = (p ≡ x) × (x ≢ null) × Outside x xs × Chain m stop xs (m x).next

-- The list holds the tasks `xs`: head, links and tail.
pub record Holds (q : Linked) (xs : List Ptr) : Type 0 where
  pub chain : Chain q.0 null xs q.1.head
  pub tail : q.1.tail ≡ last_or null xs

-- A write outside of a chain leaves it.
pub Chain-write :
    (m : Store) (stop : Ptr) (xs : List Ptr) (p a : Ptr) (t : Task)
    → Outside a xs
    → Chain m stop xs p
    → Chain (write m a t) stop xs p
unfolding write
Chain-write m stop [] p a t out c = c
Chain-write m stop (x ∷ xs) p a t (ne, out) (e, nn, o, c) =
    let same : (m x).next ≡ (write m a t x).next = ground arith in
    (
      e,
      nn,
      o,
      subst (Chain (write m a t) stop xs) same (Chain-write m stop xs (m x).next a t out c),
    )

-- A chain that stops at `t`, and `t` itself.
pub Chain-append :
    (m : Store) (stop : Ptr) (xs : List Ptr) (t p : Ptr)
    → t ≢ null
    → Outside t xs
    → (m t).next ≡ stop
    → Chain m t xs p
    → Chain m stop (xs ++ (t ∷ [])) p
Chain-append m stop [] t p nt o e c = (c, nt, tt, e)
Chain-append m stop (x ∷ xs) t p nt (ne, o) e (h, nn, out, c) = (
  h,
  nn,
  Outside-append x xs (t ∷ []) out ((λ q. ne (sym q)), tt),
  Chain-append m stop xs t (m x).next nt o e c,
)

-- Redirecting the last task's link from one stop to another.
pub Chain-relink :
    (m : Store) (stop new : Ptr) (x : Ptr) (xs : List Ptr) (p : Ptr)
    → Chain m stop (x ∷ xs) p
    → Chain (set_next m (last_or null (x ∷ xs)) new) new (x ∷ xs) p
unfolding write
Chain-relink m stop new x [] p (e, nn, o, c) = (e, nn, o, ground arith)
Chain-relink m stop new x (y ∷ ys) p (e, nn, o, c) =
    let ne = Outside-last x y ys o in
    let same : (m x).next ≡ (set_next m (last_or y ys) new x).next = ground arith in
    (
      e,
      nn,
      o,
      subst (Chain (set_next m (last_or y ys) new) new (y ∷ ys)) same
          (Chain-relink m stop new y ys (m x).next c),
    )

pub Chain-last_ne_null :
    (m : Store) (stop : Ptr) (x : Ptr) (xs : List Ptr) (p : Ptr)
    → Chain m stop (x ∷ xs) p
    → last_or null (x ∷ xs) ≢ null
Chain-last_ne_null m stop x [] p (e, nn, o, c) = nn
Chain-last_ne_null m stop x (y ∷ ys) p (e, nn, o, c) = Chain-last_ne_null m stop y ys (m x).next c

-- The tasks of a chain are distinct: one further on is none of those before it.
pub Chain-apart :
    (m : Store) (stop : Ptr) (xs : List Ptr) (z : Ptr) (zs : List Ptr) (p : Ptr)
    → Chain m stop (xs ++ (z ∷ zs)) p
    → Outside z xs × Outside (last_or z zs) xs
Chain-apart m stop [] z zs p c = (tt, tt)
Chain-apart m stop (x ∷ xs) z zs p (e, nn, o, c) =
    let right = Outside-right x xs (z ∷ zs) o in
    let rest = Chain-apart m stop xs z zs (m x).next c in
    (((λ q. right.0 (sym q)), rest.0), ((λ q. Outside-last x z zs right (sym q)), rest.1))

pub Chain-right :
    (m : Store) (stop : Ptr) (xs ys : List Ptr) (p : Ptr)
    → Chain m stop (xs ++ ys) p
    → (r : Ptr) × Chain m stop ys r
Chain-right m stop [] ys p c = (p, c)
Chain-right m stop (x ∷ xs) ys p (e, nn, o, c) = Chain-right m stop xs ys (m x).next c

pub Chain-head_ne_null :
    (m : Store) (stop : Ptr) (xs : List Ptr) (z : Ptr) (zs : List Ptr) (p : Ptr)
    → Chain m stop (xs ++ (z ∷ zs)) p
    → p ≢ null
Chain-head_ne_null m stop [] z zs p c = rw c.0 c.1
Chain-head_ne_null m stop (x ∷ xs) z zs p c = rw c.0 c.1

-- Linking the task before `t` to the one behind it takes `t` out of the chain.
pub Chain-splice :
    (m : Store) (x : Ptr) (xs : List Ptr) (t : Ptr) (ys : List Ptr) (p : Ptr)
    → Chain m null (x ∷ (xs ++ (t ∷ ys))) p
    → Chain (set_next m (last_or x xs) (m t).next) null (x ∷ (xs ++ ys)) p
unfolding write
Chain-splice m x [] t ys p (e, nn, o, c) =
    let linked : Store = set_next m x (m t).next in
    let same : (m t).next ≡ (linked x).next = ground arith in
    (e, nn, o.1, subst (Chain linked null ys) same (Chain-write m null ys (m t).next x _ o.1 c.3))
Chain-splice m x (z ∷ zs) t ys p (e, nn, o, c) =
    let linked : Store = set_next m (last_or z zs) (m t).next in
    let ne = Outside-last x z zs (Outside-left x (z ∷ zs) (t ∷ ys) o) in
    let same : (m x).next ≡ (linked x).next = ground arith in
    (
      e,
      nn,
      Outside-drop x (z ∷ zs) t ys o,
      subst (Chain linked null (z ∷ (zs ++ ys))) same (Chain-splice m z zs t ys (m x).next c),
    )

-- The last task of a chain links to where the chain stops.
pub Chain-last_next :
    (m : Store) (x : Ptr) (xs : List Ptr) (t : Ptr) (ys : List Ptr) (p : Ptr)
    → Chain m null (x ∷ (xs ++ (t ∷ ys))) p
    → (m (last_or x xs)).next ≡ t
Chain-last_next m x [] t ys p (e, nn, o, c) = c.0
Chain-last_next m x (z ∷ zs) t ys p (e, nn, o, c) = Chain-last_next m z zs t ys (m x).next c

-- The chain up to `t`.
pub Chain-upto :
    (m : Store) (t : Ptr) (xs ys : List Ptr) (p : Ptr)
    → Chain m null (xs ++ (t ∷ ys)) p
    → Chain m t xs p
Chain-upto m t [] ys p c = c.0
Chain-upto m t (x ∷ xs) ys p (e, nn, o, c) =
    (e, nn, Outside-left x xs (t ∷ ys) o, Chain-upto m t xs ys (m x).next c)
