-- ===== src/Scheduler/Tasks/Park.antt =====
-- What a task that joins a queue leaves of the other queues, and what a change of its state leaves.
use xyris.Base.{◌≡◌, ◌≢◌, ◌∙◌, List, [], ◌∷◌, ◌++◌, arith, true}
use xyris.Base.Pointers.{Outside, last_or}
use xyris.Scheduler.Task.{Ptr, null, TaskState, running, Store, write, set_state}
use xyris.Scheduler.TaskList.{TaskList, enqueue_task}
use xyris.Scheduler.TaskList.Chain.{Holds}
use xyris.Scheduler.TaskList.Queue.{enqueue_task-Holds}
use xyris.Scheduler.TaskList.Apart.{
  Apart, Holds-Links, Holds-Frame, Apart-nil, Apart-ends, Apart-sym, Chain-nonnull,
}
use xyris.Scheduler.Tasks.{Sched, time_slice_size}
use xyris.Scheduler.Tasks.Leave.{Leaves}
use xyris.Scheduler.Tasks.Wake.{enqueue_task-other}

set_state-next :
    (m : Store) (p : Ptr) (st : TaskState) (a : Ptr) → (set_state m p st a).next ≡ (m a).next
unfolding write
set_state-next m p st a = ground arith

pub set_state-own : (m : Store) (p : Ptr) (st : TaskState) → (set_state m p st p).state ≡ st
unfolding write
set_state-own m p st = ground arith

pub set_state-others :
    (m : Store) (p : Ptr) (st : TaskState) (a : Ptr)
    → a ≢ p
    → (set_state m p st a).state ≡ (m a).state
unfolding write
set_state-others m p st a ne = ground arith

-- A task's state is no part of a queue, the task's own included.
pub Holds-state :
    {m : Store} {l : TaskList} {xs : List Ptr} (p : Ptr) (st : TaskState)
    → Holds (m, l) xs
    → Holds (set_state m p st, l) xs
Holds-state {m} {l} {xs} p st h =
    Holds-Links (set_state m p st) [] (λ a o. set_state-next m p st a) (Apart-nil xs) h

-- A task that joins the queue `ws` leaves the queue `ys`.
pub Holds-beside :
    {m : Store} {l r : TaskList} {ws ys : List Ptr} (t : Ptr)
    → Holds (m, l) ws
    → Holds (m, r) ys
    → Outside t ys
    → Apart ys ws
    → Holds ((enqueue_task (m, l) t).0, r) ys
Holds-beside {m} {l} {r} {ws} {ys} t h k out a =
    Holds-Frame (enqueue_task (m, l) t).0 (t ∷ last_or null ws ∷ [])
      (λ b o. enqueue_task-other m l t b o.0 (λ e. o.1.0 (e ∙ h.tail)))
      (Apart-ends t ys ws out (Chain-nonnull m null ys r.head k.chain) a) k

-- A task that is put into the queue `ws` and then gets the state `st`: both queues, and its state.
pub record Parked (m' : Store) (l' r : TaskList) (t : Ptr) (st : TaskState) (ws ys : List Ptr)
    : Type 0 where
  pub joined : Holds (m', l') (ws ++ (t ∷ []))
  pub beside : Holds (m', r) ys
  pub state : (m' t).state ≡ st

pub set_state-Parked :
    (m : Store) (l r : TaskList) (t : Ptr) (st : TaskState) (ws ys : List Ptr)
    → Holds (m, l) ws
    → Holds (m, r) ys
    → t ≢ null
    → Outside t ws
    → Outside t ys
    → Apart ys ws
    → Parked (set_state (enqueue_task (m, l) t).0 t st) (enqueue_task (m, l) t).1 r t st ws ys
set_state-Parked m l r t st ws ys h k nn ow oy a = record {
  joined = Holds-state t st (enqueue_task-Holds t h nn ow);
  beside = Holds-state t st (Holds-beside t h k oy a);
  state = set_state-own (enqueue_task (m, l) t).0 t st;
}

-- From `s` to `t` the current task gave up the processor: it has the state `st` and stands in the list
-- `l` behind `ws`; `z` runs with a whole time slice, `zs` are ready, and no lock is held.
pub record GaveUp (s t : Sched) (l : TaskList) (st : TaskState) (z : Ptr) (zs ws : List Ptr)
    : Type 0 where
  pub current : t.current_task ≡ z
  pub runs : (t.store z).state ≡ running
  pub queue : Holds (t.store, t.tasks_ready) zs
  pub joined : Holds (t.store, l) (ws ++ (s.current_task ∷ []))
  pub ended : (t.store s.current_task).state ≡ st
  pub slice : t.time_slice_remaining ≡ time_slice_size
  pub lock : t.scheduler_lock ≡ 0
  pub postponing : t.scheduler_postpone_count ≡ 0
  pub enabled : t.interrupts ≡ true

pub Leaves-GaveUp :
    (s u t : Sched) (l : TaskList) (st : TaskState) (z : Ptr) (zs ws : List Ptr)
    → Leaves u t z zs
    → Holds (u.store, l) (ws ++ (s.current_task ∷ []))
    → Outside z (ws ++ (s.current_task ∷ []))
    → s.current_task ≢ z
    → (u.store s.current_task).state ≡ st
    → GaveUp s t l st z zs ws
Leaves-GaveUp s u t l st z zs ws v h o ne e = record {
  current = v.current;
  runs = v.runs;
  queue = v.queue;
  joined =
      Holds-Links t.store (z ∷ []) (λ a out. v.links a out.0)
        (Apart-sym (z ∷ []) (ws ++ (s.current_task ∷ [])) (o, tt)) h;
  ended = v.states s.current_task ne ∙ e;
  slice = v.slice;
  lock = v.lock;
  postponing = v.postponing;
  enabled = v.enabled;
}
