-- ===== src/Scheduler/Tasks/Wake.antt =====
-- What waking one task does to the queues and to the other tasks.
use xyris.Base.{ℕ, some, ◌≡◌, ◌≢◌, refl, ap, ◌∙◌, List, [], ◌∷◌, ◌++◌, arith, ◌-◌, ◌^◌}
use xyris.Scheduler.Task.{
  Ptr, null, Task, TaskAlloc, ready, Store, write, set_state, set_wakeup, set_next,
}
use xyris.Scheduler.TaskList.{TaskList, Linked, enqueue_task, remove_task}
use xyris.Base.Pointers.{Outside, last_or}
use xyris.Scheduler.TaskList.Chain.{Holds}
use xyris.Scheduler.TaskList.Apart.{Frame, Holds-Frame, Apart-nil}
use xyris.Scheduler.TaskList.Queue.{enqueue_task-Holds}
use xyris.Scheduler.Tasks.{Sched, wake_unlinked, wakeup, enqueue_ready}
use xyris.Scheduler.Tasks.Switch.{Holds-write}

-- What a task has beside its link, its state and its alarm time.
abbrev pub lasting : Task → ℕ × ℕ × ℕ × Ptr × TaskAlloc
lasting t = (t.stack_top, t.page_dir, t.time_used, t.name, t.alloc)

-- What `_wakeup` does, for the task `t` and the ready tasks `ys`.
pub record Wakes (t : Ptr) (ys : List Ptr) (s s' : Sched) : Type 0 where
  pub queue : Holds (s'.store, s'.tasks_ready) (ys ++ (t ∷ []))
  pub frame : Frame (t ∷ last_or null ys ∷ []) s.store s'.store
  pub woken : (s'.store t).state ≡ ready
  pub never : (s'.store t).wakeup_time ≡ 2 ^ 64 - 1
  pub states : (a : Ptr) → a ≢ t → (s'.store a).state ≡ (s.store a).state
  pub times : (a : Ptr) → a ≢ t → (s'.store a).wakeup_time ≡ (s.store a).wakeup_time
  pub lasts : (a : Ptr) → lasting (s'.store a) ≡ lasting (s.store a)
  pub rest : s' ≡ record s { store = s'.store; tasks_ready = s'.tasks_ready }

pub enqueue_task-other :
    (m : Store) (l : TaskList) (t a : Ptr) → a ≢ t → a ≢ l.tail → (enqueue_task (m, l) t).0 a ≡ m a
unfolding enqueue_task write
enqueue_task-other m l t a ne nl = ground arith

-- Enqueuing changes links only.
pub enqueue_task-fields :
    (m : Store) (l : TaskList) (t a : Ptr)
    → (((enqueue_task (m, l) t).0 a).state ≡ (m a).state)
      × (((enqueue_task (m, l) t).0 a).wakeup_time ≡ (m a).wakeup_time)
unfolding enqueue_task write
enqueue_task-fields m l t a = (ground arith, ground arith)

-- The last task of a queue links to none, so clearing its link again changes nothing.
enqueue-cleared :
    (m : Store) (l : TaskList) (t a : Ptr)
    → set_next (enqueue_task (m, l) t).0 t null a ≡ (enqueue_task (m, l) t).0 a
unfolding enqueue_task write
enqueue-cleared m l t a = ground arith

enqueue_task-lasting :
    (m : Store) (l : TaskList) (t a : Ptr) → lasting ((enqueue_task (m, l) t).0 a) ≡ lasting (m a)
unfolding enqueue_task write
enqueue_task-lasting m l t a = ground arith

-- `_remove_task` writes to the task and to the one before it, and only links.
pub remove_task-frame :
    (q q' : Linked) (t p a : Ptr) → remove_task q t p ≡ some q' → a ≢ t → a ≢ p → q'.0 a ≡ q.0 a
unfolding remove_task write
remove_task-frame (m, l) q' t p a e ne np = ground arith

pub remove_task-fields :
    (q q' : Linked) (t p a : Ptr)
    → remove_task q t p ≡ some q'
    → ((q'.0 a).state ≡ (q.0 a).state) × ((q'.0 a).wakeup_time ≡ (q.0 a).wakeup_time)
unfolding remove_task write
remove_task-fields (m, l) q' t p a e = (ground arith, ground arith)

pub remove_task-lasting :
    (q q' : Linked) (t p a : Ptr) → remove_task q t p ≡ some q' → lasting (q'.0 a) ≡ lasting (q.0 a)
unfolding remove_task write
remove_task-lasting (m, l) q' t p a e = ground arith

module _ (t : Ptr) (ys : List Ptr) (s : Sched) (h : Holds (s.store, s.tasks_ready) ys)
    (nn : t ≢ null) (out : Outside t ys) where
  -- The store after the two writes to the task, and the queue with it.
  abbrev awake : Store
  awake = set_wakeup (set_state s.store t ready) t (2 ^ 64 - 1)

  abbrev queued : Linked
  queued = enqueue_task (awake, s.tasks_ready) t

  queued-Holds : Holds queued (ys ++ (t ∷ []))
  queued-Holds = enqueue_task-Holds t (Holds-write t _ out (Holds-write t _ out h)) nn out

  awake-other : (a : Ptr) → a ≢ t → awake a ≡ s.store a
  unfolding write
  awake-other a ne = ground arith

  awake-here : ((awake t).state ≡ ready) × ((awake t).wakeup_time ≡ 2 ^ 64 - 1)
  unfolding write
  awake-here = (ground arith, ground arith)

  awake-lasting : (a : Ptr) → lasting (awake a) ≡ lasting (s.store a)
  unfolding write
  awake-lasting a = ground arith

  pub wake_unlinked-Wakes : Wakes t ys s (wake_unlinked t s)
  unfolding wake_unlinked wakeup enqueue_ready
  wake_unlinked-Wakes =
      let clear = enqueue-cleared awake s.tasks_ready t in
      let fields = enqueue_task-fields awake s.tasks_ready t in
      record {
        queue = Holds-Frame _ [] (λ a o. clear a) (Apart-nil (ys ++ (t ∷ []))) queued-Holds;
        frame = λ a o.
            clear a
            ∙ enqueue_task-other awake s.tasks_ready t a o.0 (λ e. o.1.0 (e ∙ h.tail))
            ∙ awake-other a o.0;
        woken = ap (λ (u : Task). u.state) (clear t) ∙ (fields t).0 ∙ awake-here.0;
        never = ap (λ (u : Task). u.wakeup_time) (clear t) ∙ (fields t).1 ∙ awake-here.1;
        states = λ a ne.
            ap (λ (u : Task). u.state) (clear a)
            ∙ (fields a).0
            ∙ ap (λ (u : Task). u.state) (awake-other a ne);
        times = λ a ne.
            ap (λ (u : Task). u.wakeup_time) (clear a)
            ∙ (fields a).1
            ∙ ap (λ (u : Task). u.wakeup_time) (awake-other a ne);
        lasts = λ a.
            ap lasting (clear a) ∙ enqueue_task-lasting awake s.tasks_ready t a ∙ awake-lasting a;
        rest = refl;
      }
