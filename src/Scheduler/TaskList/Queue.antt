-- ===== src/Scheduler/TaskList/Queue.antt =====
-- `_enqueue_task` and `_dequeue_task` as the two ends of a FIFO.
use xyris.Base.{
  ◌≡◌, ◌≢◌, refl, sym, subst, ◌∙◌, List, [], ◌∷◌, ◌++◌, arith, ◌==◌, if◌then◌else◌, false,
}
use xyris.Scheduler.Task.{Ptr, null, Store, write, set_next}
use xyris.Scheduler.TaskList.{TaskList, Linked, enqueue_task, dequeue_task}
use xyris.Base.Pointers.{Outside, last_or, last_or-append, last_or-behind}
use xyris.Scheduler.TaskList.Chain.{
  Chain, Holds, Chain-write, Chain-append, Chain-relink, Chain-upto, Chain-last_ne_null,
  Chain-right, Chain-apart, Chain-head_ne_null,
}

-- `_enqueue_task` on a list with a last task.
enqueue-behind :
    (m : Store) (l : TaskList) (t : Ptr)
    → l.head ≢ null
    → l.tail ≢ null
    → enqueue_task (m, l) t
      ≡ (set_next (set_next m l.tail t) t null, record { head = l.head; tail = t })
unfolding enqueue_task
enqueue-behind m l t h k =
    let e : (l.head == null) ≡ false = ground arith in
    let f : (l.tail == null) ≡ false = ground arith in rw (e, f)

-- `_enqueue_task` puts a task that is in no queue at the end.
pub enqueue_task-Holds :
    {q : Linked} {xs : List Ptr} (t : Ptr)
    → Holds q xs
    → t ≢ null
    → Outside t xs
    → Holds (enqueue_task q t) (xs ++ (t ∷ []))
unfolding enqueue_task write
enqueue_task-Holds {q = (m, l)} {xs = []} t h nn out = record {
  chain = (ground arith, nn, tt, ground arith);
  tail = refl;
}
enqueue_task-Holds {q = (m, l)} {xs = x ∷ xs} t h nn out =
    let last : Ptr = last_or null (x ∷ xs) in
    let behind =
      enqueue-behind m l t (ground arith)
        (rw h.tail (Chain-last_ne_null m null x xs l.head h.chain)) in
    let linked : Store = set_next m l.tail t in
    let relinked : Chain linked t (x ∷ xs) l.head =
      subst (λ e. Chain (set_next m e t) t (x ∷ xs) l.head) (sym h.tail)
        (Chain-relink m null t x xs l.head h.chain) in
    rw behind (record {
      chain =
          Chain-append (set_next linked t null) null (x ∷ xs) t l.head nn out (ground arith)
            (Chain-write linked t (x ∷ xs) l.head t _ out relinked);
      tail = sym (last_or-append null (x ∷ xs) t);
    })

dequeue-front :
    (m : Store) (l : TaskList)
    → l.head ≢ null
    → dequeue_task (m, l) ≡ (
      l.head,
      (
        set_next m l.head null,
        record { head = (m l.head).next; tail = if (m l.head).next == null then null else l.tail },
      ),
    )
unfolding dequeue_task
dequeue-front m l h = let e : (l.head == null) ≡ false = ground arith in rw e

-- The tail after the first task is gone.
front-tail :
    (m : Store) (tail : Ptr) (x : Ptr) (xs : List Ptr) (p : Ptr)
    → Chain m null xs p
    → tail ≡ last_or x xs
    → (if p == null then null else tail) ≡ last_or null xs
front-tail m tail x [] p c e = ground arith
front-tail m tail x (y ∷ ys) p c e = ground arith

-- `_dequeue_task` takes the first task, unlinks it and leaves the rest.
pub dequeue_task-Holds :
    {q : Linked} {x : Ptr} {xs : List Ptr}
    → Holds q (x ∷ xs)
    → ((dequeue_task q).0 ≡ x)
      × Holds (dequeue_task q).1 xs
      × ((dequeue_task q).1.0 ≡ set_next q.0 x null)
dequeue_task-Holds {q = (m, l)} {x} {xs} h =
    let at : l.head ≡ x = h.chain.0 in
    rw (dequeue-front m l (ground arith), at)
      (
        refl,
        record {
          chain = Chain-write m null xs (m x).next x _ h.chain.2 h.chain.3;
          tail = front-tail m l.tail x xs (m x).next h.chain.3 h.tail;
        },
        refl,
      )

-- From an empty list it takes nothing.
pub dequeue_task-empty : {q : Linked} → Holds q [] → dequeue_task q ≡ (null, q)
unfolding dequeue_task
dequeue_task-empty {q = (m, l)} h = ground arith

-- Enqueuing a task that is already in the list, with others behind it, cuts the list at that task:
-- from the head only the tasks up to it can be reached, and those behind it are lost.
pub enqueue_task-again :
    (q : Linked) (xs : List Ptr) (t y : Ptr) (ys : List Ptr)
    → Holds q (xs ++ (t ∷ y ∷ ys))
    → Holds (enqueue_task q t) (xs ++ (t ∷ []))
unfolding write
enqueue_task-again (m, l) xs t y ys h =
    let end : l.tail ≡ last_or t (y ∷ ys) = h.tail ∙ last_or-behind null xs t (y ∷ ys) in
    let (r, from_t) = Chain-right m null xs (t ∷ y ∷ ys) l.head h.chain in
    let end_ne : l.tail ≢ null = rw end (Chain-last_ne_null m null t (y ∷ ys) r from_t) in
    let head_ne = Chain-head_ne_null m null xs t (y ∷ ys) l.head h.chain in
    let apart = Chain-apart m null xs t (y ∷ ys) l.head h.chain in
    let linked : Store = set_next m l.tail t in
    let kept : Chain linked t xs l.head =
      Chain-write m t xs l.head l.tail _ (rw end apart.1)
        (Chain-upto m t xs (y ∷ ys) l.head h.chain) in
    rw (enqueue-behind m l t head_ne end_ne) (record {
      chain =
          Chain-append (set_next linked t null) null xs t l.head from_t.1 apart.0 (ground arith)
            (Chain-write linked t xs l.head t _ apart.0 kept);
      tail = sym (last_or-append null xs t);
    })
