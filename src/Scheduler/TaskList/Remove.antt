-- ===== src/Scheduler/TaskList/Remove.antt =====
-- `_remove_task` takes a task out of the middle of a list, given the task before it.
use mathlib.Core.List.{append-nil}
use xyris.Base.{
  ap, ◌≡◌, refl, sym, ◌∙◌, some, List, [], ◌∷◌, ◌++◌, arith, ◌==◌, if◌then◌else◌, false, true,
}
use xyris.Scheduler.Task.{Ptr, null, Store, write, set_next}
use xyris.Scheduler.TaskList.{Linked, remove_task}
use xyris.Base.Pointers.{Outside, last_or, Outside-append, last_or-behind, Outside-last}
use xyris.Scheduler.TaskList.Chain.{
  Chain, Holds, Chain-write, Chain-right, Chain-apart, Chain-splice, Chain-upto, Chain-last_next,
  Chain-last_ne_null,
}

spliced-tail :
    (x : Ptr) (xs : List Ptr) (task tail : Ptr) (ys : List Ptr)
    → tail ≡ last_or null (x ∷ (xs ++ (task ∷ ys)))
    → Outside task ys
    → (if tail == task then last_or x xs else tail) ≡ last_or null (x ∷ (xs ++ ys))
spliced-tail x xs task tail [] e o =
    let at : tail ≡ task = e ∙ last_or-behind x xs task [] in
    let found : (tail == task) ≡ true = ground arith in
    rw found (ap (λ zs. last_or x zs) (sym (append-nil xs)))
spliced-tail x xs task tail (y ∷ ys) e o =
    let end : tail ≡ last_or y ys = e ∙ last_or-behind x xs task (y ∷ ys) in
    let ne = Outside-last task y ys o in
    let missed : (tail == task) ≡ false = ground arith in
    rw missed (end ∙ sym (last_or-behind x xs y ys))

first-tail :
    (task tail : Ptr) (ys : List Ptr)
    → tail ≡ last_or task ys
    → Outside task ys
    → (if tail == task then null else tail) ≡ last_or null ys
first-tail task tail [] e o = ground arith
first-tail task tail (y ∷ ys) e o = let ne = Outside-last task y ys o in ground arith

-- `_remove_task`, given the task before it in the list (NULL for the first), does not panic, and takes
-- the task out of the list; no task changes its state.
pub remove_task-Holds :
    (q : Linked) (xs : List Ptr) (task : Ptr) (ys : List Ptr)
    → Holds q (xs ++ (task ∷ ys))
    → (q' : Linked) × (remove_task q task (last_or null xs) ≡ some q') × Holds q' (xs ++ ys)
unfolding remove_task write
remove_task-Holds (m, l) [] task ys h =
    let at : l.head ≡ task = h.chain.0 in
    let found : (l.head == task) ≡ true = ground arith in
    (
      (
        set_next m task null,
        record { head = (m task).next; tail = if l.tail == task then null else l.tail },
      ),
      rw found refl,
      record {
        chain = Chain-write m null ys (m task).next task _ h.chain.2 h.chain.3;
        tail = first-tail task l.tail ys h.tail h.chain.2;
      },
    )
remove_task-Holds (m, l) (x ∷ xs) task ys h =
    let previous : Ptr = last_or x xs in
    let joined : Chain m null (x ∷ (xs ++ (task ∷ ys))) l.head = h.chain in
    let apart = Chain-apart m null (x ∷ xs) task ys l.head joined in
    let (r, from_task) = Chain-right m null (x ∷ xs) (task ∷ ys) l.head joined in
    let here : (l.head == task) ≡ false = ground (arith, apart.0.0) in
    let there = Chain-last_next m x xs task ys l.head joined in
    let linked : Store = set_next m previous (m task).next in
    let outside : Outside task (x ∷ (xs ++ ys)) =
      Outside-append task (x ∷ xs) ys apart.0 from_task.2 in
    (
      (
        set_next linked task null,
        record { head = l.head; tail = if l.tail == task then previous else l.tail },
      ),
      (let some_before : (last_or x xs == null) ≡ false = ground (
        arith,
        Chain-last_ne_null m task x xs l.head (Chain-upto m task (x ∷ xs) ys l.head joined),
      ) in
          let linked_here : ((m (last_or x xs)).next == task) ≡ true = ground arith in
          rw (some_before, linked_here, here) refl),
      record {
        chain =
            Chain-write linked null (x ∷ (xs ++ ys)) l.head task _ outside
              (Chain-splice m x xs task ys l.head joined);
        tail = spliced-tail x xs task l.tail ys h.tail from_task.2;
      },
    )
