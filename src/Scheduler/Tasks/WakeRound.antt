-- ===== src/Scheduler/Tasks/WakeRound.antt =====
-- One round of the loop of `_on_timer` that wakes a task.
use xyris.Base.{◌≡◌, ◌≢◌, sym, ap, subst, ◌∙◌, List, [], ◌∷◌, ◌++◌, ◌-◌, ◌^◌, some}
use xyris.Scheduler.Task.{Ptr, null, ready}
use xyris.Base.Pointers.{Outside, last_or, Outside-append}
use xyris.Scheduler.TaskList.{TaskList, Linked, remove_task}
use xyris.Scheduler.TaskList.Chain.{Chain, Holds}
use xyris.Scheduler.Tasks.{Sched, wake_unlinked}
use xyris.Scheduler.TaskList.Apart.{
  Apart, Frame, Chain-Frame, Holds-Frame, Apart-ends, Apart-snoc, Chain-nonnull, Apart-left,
  Apart-right, Apart-append, Apart-sym, Chain-Apart, Outside-end,
}
use xyris.Scheduler.Tasks.Wake.{
  Wakes, wake_unlinked-Wakes, lasting, remove_task-frame, remove_task-fields, remove_task-lasting,
}

-- What a round that wakes `x` leaves.
pub record Round (x : Ptr) (kept xs ys : List Ptr) (s s' : Sched) : Type 0 where
  pub sleeping : Holds (s'.store, s'.tasks_sleeping) (kept ++ xs)
  pub queue : Holds (s'.store, s'.tasks_ready) (ys ++ (x ∷ []))
  pub apart : Apart (kept ++ xs) (ys ++ (x ∷ []))
  pub chain : Chain s'.store null xs (s.store x).next
  pub woken : (s'.store x).state ≡ ready
  pub never : (s'.store x).wakeup_time ≡ 2 ^ 64 - 1
  pub states : (a : Ptr) → a ≢ x → (s'.store a).state ≡ (s.store a).state
  pub times : (a : Ptr) → a ≢ x → (s'.store a).wakeup_time ≡ (s.store a).wakeup_time
  pub lasts : (a : Ptr) → lasting (s'.store a) ≡ lasting (s.store a)
  pub others : (a : Ptr) → a ≢ null → a ≢ x → Outside a kept → Outside a ys → s'.store a ≡ s.store a
  pub rest : s' ≡ record s {
    store = s'.store;
    tasks_ready = s'.tasks_ready;
    tasks_sleeping = s'.tasks_sleeping;
  }

module _ (x : Ptr) (kept xs ys : List Ptr) (s : Sched) (q : Linked)
    (sleep : Holds (s.store, s.tasks_sleeping) (kept ++ (x ∷ xs)))
    (h : Holds (s.store, s.tasks_ready) ys) (a : Apart (kept ++ (x ∷ xs)) ys)
    (chain : Chain s.store null (x ∷ xs) x)
    (e : remove_task (s.store, s.tasks_sleeping) x (last_or null kept) ≡ some q)
    (left : Holds q (kept ++ xs)) where
  abbrev taken : Sched
  taken = record s { store = q.0; tasks_sleeping = q.1 }

  parts : Apart kept (x ∷ xs)
  parts = Chain-Apart s.store null kept (x ∷ xs) s.tasks_sleeping.head sleep.chain

  Outside-kept : Outside x kept
  Outside-kept = (Apart-sym kept (x ∷ xs) parts).0

  Apart-x : Apart (x ∷ xs) ys
  Apart-x = Apart-right kept (x ∷ xs) ys a

  removed : Frame (x ∷ last_or null kept ∷ []) s.store q.0
  removed b o = remove_task-frame (s.store, s.tasks_sleeping) q x (last_or null kept) b e o.0 o.1.0

  ready_left : Holds (q.0, s.tasks_ready) ys
  ready_left =
      Holds-Frame q.0 (x ∷ last_or null kept ∷ []) removed
        (Apart-ends x ys kept Apart-x.0 (Chain-nonnull s.store null ys s.tasks_ready.head h.chain)
          (Apart-sym kept ys (Apart-left kept (x ∷ xs) ys a)))
        h

  w : Wakes x ys taken (wake_unlinked x taken)
  w = wake_unlinked-Wakes x ys taken ready_left chain.1 Apart-x.0

  Apart-rest : Apart (kept ++ xs) ys
  Apart-rest = Apart-append kept xs ys (Apart-left kept (x ∷ xs) ys a) Apart-x.1

  Outside-rest : Outside x (kept ++ xs)
  Outside-rest = Outside-append x kept xs Outside-kept chain.2

  pub wake-Round : Round x kept xs ys s (wake_unlinked x taken)
  wake-Round =
      let s' = wake_unlinked x taken in
      let nonnull = Chain-nonnull q.0 null (kept ++ xs) q.1.head left.chain in
      let fields = remove_task-fields (s.store, s.tasks_sleeping) q x (last_or null kept) in
      let ends = Apart-ends x (kept ++ xs) ys Outside-rest nonnull Apart-rest in
      record {
        sleeping =
            subst (λ (u : Sched). Holds (s'.store, u.tasks_sleeping) (kept ++ xs)) (sym (w.rest))
              (Holds-Frame s'.store (x ∷ last_or null ys ∷ []) w.frame ends left);
        queue = w.queue;
        apart = Apart-snoc x (kept ++ xs) ys Outside-rest Apart-rest;
        chain =
            Chain-Frame q.0 s'.store null xs (x ∷ last_or null ys ∷ []) (s.store x).next w.frame
              (Apart-right kept xs (x ∷ last_or null ys ∷ []) ends)
              (Chain-Frame s.store q.0 null xs (x ∷ last_or null kept ∷ []) (s.store x).next removed
                (Apart-ends x xs kept chain.2
                  (Chain-nonnull s.store null xs (s.store x).next chain.3)
                  (Apart-right (x ∷ []) xs kept (Apart-sym kept (x ∷ xs) parts)))
                chain.3);
        woken = w.woken;
        never = w.never;
        states = λ b ne. w.states b ne ∙ (fields b e).0;
        times = λ b ne. w.times b ne ∙ (fields b e).1;
        lasts = λ b.
            w.lasts b ∙ remove_task-lasting (s.store, s.tasks_sleeping) q x (last_or null kept) b e;
        others = λ b nb ne o p.
            w.frame b (ne, (Outside-end b ys nb p, tt))
            ∙ removed b (ne, (Outside-end b kept nb o, tt));
        rest =
            w.rest
            ∙ ap
                (λ (u : TaskList). record taken {
                  store = s'.store;
                  tasks_ready = s'.tasks_ready;
                  tasks_sleeping = u;
                })
                (sym (ap (λ (u : Sched). u.tasks_sleeping) w.rest));
      }
