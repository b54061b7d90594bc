-- ===== src/Scheduler/Tasks/Exit.antt =====
-- `tasks_sync_block` and `tasks_exit` as wholes: the caller gives the processor up, blocked or stopped,
-- and the first ready task runs.
use xyris.Base.{ℕ, ◌≡◌, ◌≢◌, refl, sym, subst, ap, ◌∙◌, true, false, some, List, [], ◌∷◌, ◌++◌}
use xyris.Scheduler.Task.{
  Ptr, null, ready, stopped, blocked, Store, is_running, set_state, TaskState,
}
use xyris.Scheduler.TaskList.{TaskList, Linked, enqueue_task}
use xyris.Base.Pointers.{Outside, Outside-append}
use xyris.Scheduler.TaskList.Chain.{Holds}
use xyris.Scheduler.TaskList.Queue.{enqueue_task-Holds}
use xyris.Scheduler.TaskList.Apart.{Apart, Apart-sym, Apart-append}
use xyris.Scheduler.Tasks.{
  Sched, enqueue_ready, enqueue_stopped, acquire_scheduler_lock, leave_lock, schedule,
  release_scheduler_lock, tasks_block_current, tasks_unblock, tasks_exit, tasks_sync_block,
}
use xyris.Scheduler.Tasks.Leave.{left, left-Leaves, release-left}
use xyris.Scheduler.Tasks.Park.{
  Parked, set_state-Parked, set_state-others, Holds-state, Holds-beside, GaveUp, Leaves-GaveUp,
}
use xyris.Scheduler.Tasks.Switch.{acquire-free}
use xyris.Scheduler.Tasks.SyncUnblock.{locked, noted}
use xyris.Scheduler.Tasks.Wake.{enqueue_task-fields}

module _ (clock : ℕ → ℕ) (interrupt : ℕ → Sched → Sched) (n : ℕ) where
  -- Under one lock, the two calls leave a note, and change a state and a queue.
  block-locked :
      (reason : TaskState) (s : Sched)
      → tasks_block_current clock interrupt reason n (locked s)
        ≡ some (record (noted s) { store = set_state s.store s.current_task reason })
  unfolding tasks_block_current acquire_scheduler_lock schedule release_scheduler_lock leave_lock
  block-locked reason s = refl

  unblock-locked :
      (task : Ptr) (s : Sched)
      → tasks_unblock clock interrupt task n (noted s)
        ≡ some (enqueue_ready (record (noted s) { store = set_state s.store task ready }) task)
  unfolding tasks_unblock acquire_scheduler_lock schedule release_scheduler_lock leave_lock
      enqueue_ready
  unblock-locked task s = refl

module _ (clock : ℕ → ℕ) (interrupt : ℕ → Sched → Sched) (n : ℕ) (s : Sched)
    (free : s.scheduler_lock ≡ 0) (open_ : s.scheduler_postpone_count ≡ 0)
    (idle : s.current_task ≢ null) where
  -- The last release, from a state in which the caller has been put away.
  release-GaveUp :
      (u : Sched) (l : TaskList) (st : TaskState) (z : Ptr) (zs ws : List Ptr)
      → u.current_task ≡ s.current_task
      → u.scheduler_lock ≡ 1
      → u.scheduler_postpone_count ≡ 1
      → u.scheduler_postponed ≡ true
      → is_running st ≡ false
      → Parked u.store l u.tasks_ready s.current_task st ws (z ∷ zs)
      → Outside s.current_task (z ∷ zs)
      → Outside z ws
      → (t : Sched) × (release_scheduler_lock clock interrupt n u ≡ some t)
        × (t.tasks_stopped ≡ u.tasks_stopped)
        × GaveUp s t l st z zs ws
  release-GaveUp u l st z zs ws same once count note asleep p out o =
      let u_idle : u.current_task ≢ null = λ e. idle (sym same ∙ e) in
      let gone : is_running (u.store u.current_task).state ≡ false =
        ap (λ c. is_running (u.store c).state) same ∙ ap is_running p.state ∙ asleep in
      let u_out = subst (λ c. Outside c (z ∷ zs)) (sym same) out in
      (
        left clock u z zs u_idle gone p.beside u_out once,
        release-left clock u z zs u_idle gone p.beside u_out once interrupt n count note,
        (left-Leaves clock u z zs u_idle gone p.beside u_out once).stopped,
        Leaves-GaveUp s u _ l st z zs ws (left-Leaves clock u z zs u_idle gone p.beside u_out once)
            p.joined (Outside-append z ws (s.current_task ∷ []) o ((λ e. out.0 (sym e)), tt)) out.0
            p.state,
      )

  -- With a current task that is in neither queue, `z`, then `zs`, ready, other tasks `ws` waiting, and
  -- no lock held, `tasks_sync_block` succeeds: the caller is blocked and last of the waiting tasks, `z`
  -- runs with a whole time slice, `zs` are ready, and the lock is given up.
  pub tasks_sync_block-GaveUp :
      (waiting : TaskList) (z : Ptr) (zs ws : List Ptr)
      → Holds (s.store, waiting) ws
      → Holds (s.store, s.tasks_ready) (z ∷ zs)
      → Apart (z ∷ zs) ws
      → Outside s.current_task (z ∷ zs)
      → Outside s.current_task ws
      → (l : TaskList) × (t : Sched) × (tasks_sync_block clock interrupt waiting n s ≡ some (l, t))
        × GaveUp s t l blocked z zs ws
  unfolding tasks_sync_block
  tasks_sync_block-GaveUp waiting z zs ws hw hr a out ow =
      let q = enqueue_task (s.store, waiting) s.current_task in
      let p =
        set_state-Parked s.store waiting s.tasks_ready s.current_task blocked ws (z ∷ zs) hw hr idle
          ow out a in
      let u = record (noted s) { store = set_state q.0 s.current_task blocked } in
      let (t, e, _, g) = release-GaveUp u q.1 blocked z zs ws refl refl refl refl refl p out a.0 in
      (
        q.1,
        t,
        rw
            (
              acquire-free s free open_,
              block-locked clock interrupt n blocked (record s { store = q.0 }),
              e,
            )
            refl,
        g,
      )

  module _ (ws ys : List Ptr) (hw : Holds (s.store, s.tasks_stopped) ws)
      (hr : Holds (s.store, s.tasks_ready) ys) (a : Apart ys ws) (oy : Outside s.current_task ys)
      (ow : Outside s.current_task ws) (cleaner : s.cleaner_task ≢ null)
      (ky : Outside s.cleaner_task ys) (kw : Outside s.cleaner_task ws)
      (kc : s.cleaner_task ≢ s.current_task) where
    abbrev stopped_queue : Linked
    stopped_queue = enqueue_task (s.store, s.tasks_stopped) s.current_task

    abbrev stopped_store : Store
    stopped_store = set_state stopped_queue.0 s.current_task stopped

    abbrev woken_queue : Linked
    woken_queue =
        enqueue_task (set_state stopped_store s.cleaner_task ready, s.tasks_ready) s.cleaner_task

    -- The caller among the stopped tasks and the cleaner among the ready ones.
    woken-Parked :
        Parked woken_queue.0 stopped_queue.1 woken_queue.1 s.current_task stopped ws
          (ys ++ (s.cleaner_task ∷ []))
    woken-Parked =
        let p =
          set_state-Parked s.store s.tasks_stopped s.tasks_ready s.current_task stopped ws ys hw hr
            idle ow oy a in
        let k = s.cleaner_task in
        let r = Holds-state k ready p.beside in
        record {
          joined =
              Holds-beside k r (Holds-state k ready p.joined)
                (Outside-append k ws (s.current_task ∷ []) kw (kc, tt))
                (Apart-append ws (s.current_task ∷ []) ys (Apart-sym ys ws a) (oy, tt));
          beside = enqueue_task-Holds k r cleaner ky;
          state =
              (enqueue_task-fields (set_state stopped_store k ready) s.tasks_ready k
                s.current_task).0
              ∙ set_state-others stopped_store k ready s.current_task (λ e. kc (sym e))
              ∙ p.state;
        }

    -- With a current task, the tasks `ys` ready and others, `ws`, stopped, no lock held, and the caller
    -- and the cleaner two tasks in neither queue, `tasks_exit` succeeds: the caller is stopped and last of
    -- the stopped tasks, the cleaner is ready behind `ys`, the first of these runs with a whole time slice,
    -- and the lock is given up.
    pub tasks_exit-GaveUp :
        (z : Ptr) (zs : List Ptr)
        → ys ++ (s.cleaner_task ∷ []) ≡ z ∷ zs
        → (t : Sched) × (tasks_exit clock interrupt n s ≡ some t)
          × GaveUp s t t.tasks_stopped stopped z zs ws
    unfolding tasks_exit enqueue_stopped enqueue_ready
    tasks_exit-GaveUp z zs split =
        let p =
          subst (Parked woken_queue.0 stopped_queue.1 woken_queue.1 s.current_task stopped ws) split
            woken-Parked in
        let out =
          subst (Outside s.current_task) split
            (Outside-append s.current_task ys (s.cleaner_task ∷ []) oy ((λ e. kc (sym e)), tt)) in
        let apart =
          subst (λ xs. Apart xs ws) split (Apart-append ys (s.cleaner_task ∷ []) ws a (kw, tt)) in
        let u = record (noted s) {
          store = woken_queue.0;
          tasks_ready = woken_queue.1;
          tasks_stopped = stopped_queue.1;
        } in
        let (t, e, l, g) =
          release-GaveUp u stopped_queue.1 stopped z zs ws refl refl refl refl refl p out apart.0 in
        (
          t,
          rw
              (
                acquire-free s free open_,
                block-locked clock interrupt n stopped
                    (record s { store = stopped_queue.0; tasks_stopped = stopped_queue.1 }),
                unblock-locked clock interrupt n s.cleaner_task
                    (record s { store = stopped_store; tasks_stopped = stopped_queue.1 }),
              )
              e,
          subst (λ x. GaveUp s t x stopped z zs ws) (sym l) g,
        )
