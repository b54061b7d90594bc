-- ===== src/Scheduler/TaskList/Apart.antt =====
-- Lists of tasks with nothing in common, and what a write to other tasks leaves of a list.
use xyris.Base.{◌≡◌, ◌≢◌, sym, subst, ap, List, [], ◌∷◌, ◌++◌}
use xyris.Scheduler.Task.{Ptr, null, Task, Store}
use xyris.Base.Pointers.{Outside, last_or, Outside-append, Outside-last, Outside-right}
use xyris.Scheduler.TaskList.{TaskList}
use xyris.Scheduler.TaskList.Chain.{Chain, Holds}

-- None of the tasks `xs` is one of `ys`.
abbrev pub Apart : List Ptr → List Ptr → Type 0
Apart [] ys = Unit {0}
Apart (x ∷ xs) ys = Outside x ys × Apart xs ys

-- What a routine leaves of the tasks but `ws`.
abbrev pub Frame : List Ptr → Store → Store → Type 0
Frame ws m m' = (a : Ptr) → Outside a ws → m' a ≡ m a

-- What a routine leaves of the links of the tasks but `ws`.
abbrev pub SameLinks : List Ptr → Store → Store → Type 0
SameLinks ws m m' = (a : Ptr) → Outside a ws → (m' a).next ≡ (m a).next

Chain-Links :
    (m m' : Store) (stop : Ptr) (xs ws : List Ptr) (p : Ptr)
    → SameLinks ws m m'
    → Apart xs ws
    → Chain m stop xs p
    → Chain m' stop xs p
Chain-Links m m' stop [] ws p f a c = c
Chain-Links m m' stop (x ∷ xs) ws p f (o, a) (e, nn, out, c) = (
  e,
  nn,
  out,
  subst (Chain m' stop xs) (sym (f x o)) (Chain-Links m m' stop xs ws (m x).next f a c),
)

pub Holds-Links :
    {m : Store} (m' : Store) {l : TaskList} {xs : List Ptr} (ws : List Ptr)
    → SameLinks ws m m'
    → Apart xs ws
    → Holds (m, l) xs
    → Holds (m', l) xs
Holds-Links {m} m' {l} {xs} ws f a h = record {
  chain = Chain-Links m m' null xs ws l.head f a h.chain;
  tail = h.tail;
}

pub Chain-Frame :
    (m m' : Store) (stop : Ptr) (xs ws : List Ptr) (p : Ptr)
    → Frame ws m m'
    → Apart xs ws
    → Chain m stop xs p
    → Chain m' stop xs p
Chain-Frame m m' stop xs ws p f a c =
    Chain-Links m m' stop xs ws p (λ b o. ap (λ (t : Task). t.next) (f b o)) a c

pub Holds-Frame :
    {m : Store} (m' : Store) {l : TaskList} {xs : List Ptr} (ws : List Ptr)
    → Frame ws m m'
    → Apart xs ws
    → Holds (m, l) xs
    → Holds (m', l) xs
Holds-Frame m' ws f a h = Holds-Links m' ws (λ b o. ap (λ (t : Task). t.next) (f b o)) a h

pub Apart-nil : (xs : List Ptr) → Apart xs []
Apart-nil [] = tt
Apart-nil (x ∷ xs) = (tt, Apart-nil xs)

-- The tasks of a chain stand at addresses.
pub Chain-nonnull :
    (m : Store) (stop : Ptr) (xs : List Ptr) (p : Ptr) → Chain m stop xs p → Outside null xs
Chain-nonnull m stop [] p c = tt
Chain-nonnull m stop (x ∷ xs) p (e, nn, o, c) =
    ((λ q. nn (sym q)), Chain-nonnull m stop xs (m x).next c)

-- A task that is in no place of the queue `ys` is not its last one.
pub Outside-end : (a : Ptr) (ys : List Ptr) → a ≢ null → Outside a ys → a ≢ last_or null ys
Outside-end a [] nn o = nn
Outside-end a (y ∷ ys) nn o = Outside-last a y ys o

pub Apart-ends :
    (x : Ptr) (xs ys : List Ptr)
    → Outside x xs
    → Outside null xs
    → Apart xs ys
    → Apart xs (x ∷ last_or null ys ∷ [])
Apart-ends x [] ys o nn a = tt
Apart-ends x (z ∷ zs) ys o nn a = (
  ((λ e. o.0 (sym e)), (Outside-end z ys (λ e. nn.0 (sym e)) a.0, tt)),
  Apart-ends x zs ys o.1 nn.1 a.1,
)

pub Apart-snoc :
    (x : Ptr) (xs ys : List Ptr) → Outside x xs → Apart xs ys → Apart xs (ys ++ (x ∷ []))
Apart-snoc x [] ys o a = tt
Apart-snoc x (z ∷ zs) ys o a =
    (Outside-append z ys (x ∷ []) a.0 ((λ e. o.0 (sym e)), tt), Apart-snoc x zs ys o.1 a.1)

pub Apart-left : (xs zs ys : List Ptr) → Apart (xs ++ zs) ys → Apart xs ys
Apart-left [] zs ys a = tt
Apart-left (x ∷ xs) zs ys (o, a) = (o, Apart-left xs zs ys a)

pub Apart-right : (xs zs ys : List Ptr) → Apart (xs ++ zs) ys → Apart zs ys
Apart-right [] zs ys a = a
Apart-right (x ∷ xs) zs ys (o, a) = Apart-right xs zs ys a

pub Apart-append : (xs zs ys : List Ptr) → Apart xs ys → Apart zs ys → Apart (xs ++ zs) ys
Apart-append [] zs ys a b = b
Apart-append (x ∷ xs) zs ys (o, a) b = (o, Apart-append xs zs ys a b)

Apart-tail : (y : Ptr) (xs ys : List Ptr) → Apart xs (y ∷ ys) → Outside y xs × Apart xs ys
Apart-tail y [] ys a = (tt, tt)
Apart-tail y (x ∷ xs) ys ((ne, p), a) =
    let (o, b) = Apart-tail y xs ys a in (((λ e. ne (sym e)), o), (p, b))

pub Apart-sym : (xs ys : List Ptr) → Apart xs ys → Apart ys xs
Apart-sym xs [] a = tt
Apart-sym xs (y ∷ ys) a = let (o, b) = Apart-tail y xs ys a in (o, Apart-sym xs ys b)

-- The two parts of a chain have no task in common.
pub Chain-Apart :
    (m : Store) (stop : Ptr) (xs ys : List Ptr) (p : Ptr) → Chain m stop (xs ++ ys) p → Apart xs ys
Chain-Apart m stop [] ys p c = tt
Chain-Apart m stop (x ∷ xs) ys p (e, nn, o, c) =
    (Outside-right x xs ys o, Chain-Apart m stop xs ys (m x).next c)
