-- ===== src/Scheduler/Tasks/WakeLoop.antt =====
-- The loop of `_on_timer` over the sleeping tasks.
use xyris.Base.{
  ℕ, zero, suc, ◌≡◌, ◌≢◌, refl, sym, ap, subst, ◌∙◌, Bool, true, false, ◌||◌, List, [], ◌∷◌, ◌++◌,
  arith, ◌==◌, leb, ◌<◌, append-nil, if◌then◌else◌, some, append_assoc, not, Bool-cases, inl, inr,
}
use xyris.Scheduler.Task.{Ptr, null, Store}
use xyris.Base.Pointers.{Outside, last_or, last_or-append, Outside-append}
use xyris.Scheduler.TaskList.{Linked, remove_task}
use xyris.Scheduler.TaskList.Chain.{Chain, Holds}
use xyris.Scheduler.TaskList.Remove.{remove_task-Holds}
use xyris.Scheduler.Tasks.{Sched, wake_unlinked, wake_loop}
use xyris.Scheduler.TaskList.Apart.{Apart}
use xyris.Scheduler.Tasks.Wake.{lasting}
use xyris.Scheduler.Tasks.WakeRound.{Round, wake-Round}
use xyris.Scheduler.Tasks.Unblock.{count, Awake}

-- The tasks among `xs` whose time has come, and the others.
abbrev pub due : ℕ → Store → List Ptr → List Ptr
due time m [] = []
due time m (x ∷ xs) = if leb (m x).wakeup_time time then x ∷ due time m xs else due time m xs

abbrev pub later : ℕ → Store → List Ptr → List Ptr
later time m [] = []
later time m (x ∷ xs) = if leb (m x).wakeup_time time then later time m xs else x ∷ later time m xs

abbrev pub is_empty : List Ptr → Bool
is_empty [] = true
is_empty (x ∷ xs) = false

-- Which tasks are due depends on their times alone.
due-same :
    (time : ℕ) (m m' : Store) (x : Ptr) (xs : List Ptr)
    → ((a : Ptr) → a ≢ x → (m' a).wakeup_time ≡ (m a).wakeup_time)
    → Outside x xs
    → (due time m' xs ≡ due time m xs) × (later time m' xs ≡ later time m xs)
due-same time m m' x [] f o = (refl, refl)
due-same time m m' x (y ∷ ys) f (ne, o) =
    let (d, l) = due-same time m m' x ys f o in rw (f y (λ e. ne (sym e)), d, l) (refl, refl)

-- One round that wakes `x`.
wake_loop-woken :
    (time n : ℕ) (pre x : Ptr) (need : Bool) (s : Sched) (q : Linked) {r : Bool × Sched}
    → x ≢ null
    → leb (s.store x).wakeup_time time ≡ true
    → remove_task (s.store, s.tasks_sleeping) x pre ≡ some q
    → wake_loop time n pre
        (s.store x).next
        true
        (wake_unlinked x (record s { store = q.0; tasks_sleeping = q.1 }))
      ≡ some r
    → wake_loop time (suc n) pre x need s ≡ some r
unfolding wake_loop
wake_loop-woken time n pre x need s (m, l) ne e f g =
    let found : (x == null) ≡ false = ground arith in rw (found, e, f) g

wake_loop-kept :
    (time n : ℕ) (pre x : Ptr) (need : Bool) (s : Sched) {r : Bool × Sched}
    → x ≢ null
    → leb (s.store x).wakeup_time time ≡ false
    → wake_loop time n x (s.store x).next need s ≡ some r
    → wake_loop time (suc n) pre x need s ≡ some r
unfolding wake_loop
wake_loop-kept time n pre x need s ne e g =
    let found : (x == null) ≡ false = ground arith in rw (found, e) g

-- What the loop leaves, where `ds` of the tasks after `kept` are due, `ls` are not, and `ys` are ready.
pub record Woke (ds ls kept ys : List Ptr) (need need' : Bool) (s t : Sched) : Type 0 where
  pub sleeping : Holds (t.store, t.tasks_sleeping) (kept ++ ls)
  pub queue : Holds (t.store, t.tasks_ready) (ys ++ ds)
  pub woken : Awake t.store ds
  pub states : (a : Ptr) → Outside a ds → (t.store a).state ≡ (s.store a).state
  pub times : (a : Ptr) → Outside a ds → (t.store a).wakeup_time ≡ (s.store a).wakeup_time
  pub lasts : (a : Ptr) → lasting (t.store a) ≡ lasting (s.store a)
  pub others :
      (a : Ptr)
      → a ≢ null
      → Outside a kept
      → Outside a ds
      → Outside a ls
      → Outside a ys
      → t.store a ≡ s.store a
  pub asks : need' ≡ (need || not (is_empty ds))
  pub rest :
      t
      ≡ record s { store = t.store; tasks_ready = t.tasks_ready; tasks_sleeping = t.tasks_sleeping }

Woke-cons :
    (x : Ptr) (ds ls kept xs ys : List Ptr) (need need' : Bool) (s s1 t : Sched)
    → Outside x ds
    → Round x kept xs ys s s1
    → Woke ds ls kept (ys ++ (x ∷ [])) true need' s1 t
    → Woke (x ∷ ds) ls kept ys need need' s t
Woke-cons x ds ls kept xs ys need need' s s1 t out w h = record {
  sleeping = h.sleeping;
  queue = subst (Holds (t.store, t.tasks_ready)) (append_assoc ys (x ∷ []) ds) h.queue;
  woken = (h.states x out ∙ w.woken, h.times x out ∙ w.never, h.woken);
  states = λ b o. h.states b o.1 ∙ w.states b o.0;
  times = λ b o. h.times b o.1 ∙ w.times b o.0;
  lasts = λ b. h.lasts b ∙ w.lasts b;
  others = λ b nb o p r i.
      h.others b nb o p.1 r (Outside-append b ys (x ∷ []) i (p.0, tt)) ∙ w.others b nb p.0 o i;
  asks = ground arith;
  rest =
      h.rest
      ∙ ap
          (λ (u : Sched). record u {
            store = t.store;
            tasks_ready = t.tasks_ready;
            tasks_sleeping = t.tasks_sleeping;
          })
          w.rest;
}

Woke-kept :
    (x : Ptr) (ds ls kept ys : List Ptr) (need need' : Bool) (s t : Sched)
    → Woke ds ls (kept ++ (x ∷ [])) ys need need' s t
    → Woke ds (x ∷ ls) kept ys need need' s t
Woke-kept x ds ls kept ys need need' s t h = record {
  sleeping = subst (Holds (t.store, t.tasks_sleeping)) (append_assoc kept (x ∷ []) ls) h.sleeping;
  queue = h.queue;
  woken = h.woken;
  states = h.states;
  times = h.times;
  lasts = h.lasts;
  others = λ b nb o p r i. h.others b nb (Outside-append b kept (x ∷ []) o (r.0, tt)) p r.1 i;
  asks = h.asks;
  rest = h.rest;
}

pub due-Outside :
    (time : ℕ) (m : Store) (a : Ptr) (xs : List Ptr) → Outside a xs → Outside a (due time m xs)
due-Outside time m a [] o = tt
due-Outside time m a (x ∷ xs) (ne, o) = elim (Bool-cases (leb (m x).wakeup_time time)) [
  | inl e ↦ rw e (ne, due-Outside time m a xs o)
  | inr e ↦ rw e (due-Outside time m a xs o)
]

wake_loop-end :
    (time n : ℕ) (pre : Ptr) (need : Bool) (s : Sched)
    → wake_loop time (suc n) pre null need s ≡ some (need, s)
unfolding wake_loop
wake_loop-end time n pre need s = refl

-- With a round for each sleeping task and one more, and with sleeping and ready queues that are well
-- linked and share no task, the loop over the sleeping tasks returns. From
-- `kept` on, it takes every task whose time has come out of the sleeping list, in order, to the end
-- of the ready queue, where it is ready and without an alarm time; the others stay asleep in their
-- order. It asks for a switch where one was asked for or a task was due. The states and alarm times
-- of all other tasks, what each task has beside its link, state and alarm time, the tasks in neither
-- queue (NULL apart) and the scheduler beside the two queues are as before.
pub wake_loop-Woke :
    (time n : ℕ) (kept rest ys : List Ptr) (p : Ptr) (need : Bool) (s : Sched)
    → count rest < n
    → Holds (s.store, s.tasks_sleeping) (kept ++ rest)
    → Holds (s.store, s.tasks_ready) ys
    → Apart (kept ++ rest) ys
    → Chain s.store null rest p
    → (need' : Bool) × (t : Sched) × (wake_loop time n (last_or null kept) p need s
        ≡ some (need', t))
      × Woke (due time s.store rest) (later time s.store rest) kept ys need need' s t
wake_loop-Woke time zero kept rest ys p need s le sl h a c = absurd (omega arith)
wake_loop-Woke time (suc n) kept [] ys p need s le sl h a c = (
  need,
  s,
  rw c (wake_loop-end time n (last_or null kept) need s),
  record {
    sleeping = sl;
    queue = subst (Holds (s.store, s.tasks_ready)) (sym (append-nil ys)) h;
    woken = tt;
    states = λ b o. refl;
    times = λ b o. refl;
    lasts = λ b. refl;
    others = λ b nb o p r i. refl;
    asks = ground arith;
    rest = refl;
  },
)
wake_loop-Woke time (suc n) kept (x ∷ xs) ys p need s le sl h a (at, nn, out, c) =
    elim (Bool-cases (leb (s.store x).wakeup_time time)) [
      | inl e ↦
          let (q, gone, left) = remove_task-Holds (s.store, s.tasks_sleeping) kept x xs sl in
          let r = wake-Round x kept xs ys s q sl h a (refl, nn, out, c) gone left in
          let s1 = wake_unlinked x (record s { store = q.0; tasks_sleeping = q.1 }) in
          let (need', t, run, woke) =
            wake_loop-Woke time n kept xs (ys ++ (x ∷ [])) (s.store x).next true s1 (omega arith)
              r.sleeping r.queue r.apart r.chain in
          let (d, l) = due-same time s.store s1.store x xs r.times out in
          rw (e, at)
            (
              need',
              t,
              wake_loop-woken time n (last_or null kept) x need s q nn e gone run,
              Woke-cons x (due time s.store xs) (later time s.store xs) kept xs ys need need' s s1 t
                  (due-Outside time s.store x xs out) r
                  (subst
                    (λ ds. Woke ds (later time s.store xs) kept (ys ++ (x ∷ [])) true need' s1 t) d
                    (subst
                      (λ ls. Woke (due time s1.store xs) ls kept (ys ++ (x ∷ [])) true need' s1 t) l
                      woke)),
            )
      | inr e ↦
          let assoc = sym (append_assoc kept (x ∷ []) xs) in
          let (need', t, run, woke) =
            wake_loop-Woke time n (kept ++ (x ∷ [])) xs ys (s.store x).next need s (omega arith)
              (subst (Holds (s.store, s.tasks_sleeping)) assoc sl) h
              (subst (λ l. Apart l ys) assoc a) c in
          rw (e, at)
            (
              need',
              t,
              wake_loop-kept time n (last_or null kept) x need s nn e (
                  subst (λ b. wake_loop time n b (s.store x).next need s ≡ some (need', t))
                    (last_or-append null kept x) run),
              Woke-kept x (due time s.store xs) (later time s.store xs) kept ys need need' s t woke,
            )
    ]
