-- ===== src/Scheduler/Create/Cleaner.antt =====
-- What the cleaner's loop calls for the stopped tasks, and what it leaves.
use xyris.Base.{
  ℕ, zero, suc, ◌*◌, ◌/◌, ◌^◌, ◌<◌, ◌≡◌, ◌≢◌, refl, sym, ap, subst, ◌∙◌, true, false, Option, some,
  Bool-cases, inl, inr, ◌==◌, arith, if◌then◌else◌, List, [], ◌∷◌,
}
use xyris.Memory.Address.Laws.{page_align-rounds}
use xyris.Memory.Paging.{Paging, free_page}
use xyris.Scheduler.Task.{Ptr, null, Store, write, set_next}
use xyris.Scheduler.TaskList.{dequeue_task}
use xyris.Scheduler.TaskList.Chain.{Holds}
use xyris.Scheduler.TaskList.Queue.{dequeue_task-Holds}
use xyris.Scheduler.Tasks.Unblock.{count}
use xyris.Scheduler.Create.{World, is_dynamic, clean_stopped_task, clean_loop}

-- Every task of the list has its stack pointer in the 32-bit address space.
abbrev pub Fit : Store → List Ptr → Type 0
Fit m [] = Unit {0}
Fit m (x ∷ xs) = ((m x).stack_top < 2 ^ 32) × Fit m xs

-- The stacks and the origins of the tasks are the same.
abbrev Same : Store → Store → Type 0
Same m m' = (a : Ptr) → ((m' a).stack_top ≡ (m a).stack_top) × ((m' a).alloc ≡ (m a).alloc)

set_next-Same : (m : Store) (p q : Ptr) → Same m (set_next m p q)
unfolding write
set_next-Same m p q a = (ground arith, ground arith)

Fit-Same : (m m' : Store) (xs : List Ptr) → Same m m' → Fit m xs → Fit m' xs
Fit-Same m m' [] same f = tt
Fit-Same m m' (x ∷ xs) same (fx, f) =
    (subst (λ a. a < 2 ^ 32) (sym (same x).0) fx, Fit-Same m m' xs same f)

-- The store with the links of the tasks `xs` cleared, and nothing else changed.
abbrev pub unlinked : Store → List Ptr → Store
unlinked m [] = m
unlinked m (x ∷ xs) = unlinked (set_next m x null) xs

module _ {H : Type 0} (free : Ptr → H × Paging → H × Paging) where
  -- What the heap and the page tables are to be once the tasks are gone: for each task in turn, `freePage`
  -- is called for the start of the page that its stack pointer lies in, with size 1, and then `free` for
  -- its structure if the heap gave it.
  abbrev pub release : Store → Ptr → H × Paging → H × Paging
  release m x (heap, paging) =
      let freed = free_page paging ((m x).stack_top / 4096 * 4096) 1 in
      if is_dynamic (m x).alloc then free x (heap, freed) else (heap, freed)

  abbrev pub release_all : Store → List Ptr → H × Paging → H × Paging
  release_all m [] r = r
  release_all m (x ∷ xs) r = release_all m xs (release m x r)

  -- The world after the cleaning: of the tasks' structures only the links of the cleaned ones changed.
  pub record Cleaned (xs : List Ptr) (w w' : World H) : Type 0 where
    pub released : (w'.heap, w'.paging) ≡ release_all w.sched.store xs (w.heap, w.paging)
    pub store : w'.sched.store ≡ unlinked w.sched.store xs
    pub empty : Holds (w'.sched.store, w'.sched.tasks_stopped) []
    pub rest : w' ≡ record w {
      sched = record w.sched { store = w'.sched.store; tasks_stopped = w'.sched.tasks_stopped };
      heap = w'.heap;
      paging = w'.paging;
    }

  clean_stopped_task-release :
      (x : Ptr) (w : World H)
      → (w.sched.store x).stack_top < 2 ^ 32
      → clean_stopped_task free x w ≡ record w {
        heap = (release w.sched.store x (w.heap, w.paging)).0;
        paging = (release w.sched.store x (w.heap, w.paging)).1;
      }
  unfolding clean_stopped_task
  clean_stopped_task-release x w lt = elim (Bool-cases (is_dynamic (w.sched.store x).alloc)) [
    | inl e ↦ rw (page_align-rounds (w.sched.store x).stack_top lt, e) refl
    | inr e ↦ rw (page_align-rounds (w.sched.store x).stack_top lt, e) refl
  ]

  release-Same :
      (m m' : Store) (x : Ptr) (r : H × Paging) → Same m m' → release m' x r ≡ release m x r
  release-Same m m' x (heap, paging) same = rw ((same x).0, (same x).1) refl

  release_all-Same :
      (m m' : Store) (xs : List Ptr) (r : H × Paging)
      → Same m m'
      → release_all m' xs r ≡ release_all m xs r
  release_all-Same m m' [] r same = refl
  release_all-Same m m' (x ∷ xs) r same =
      release_all-Same m m' xs (release m' x r) same
      ∙ ap (release_all m xs) (release-Same m m' x r same)

  -- The world after `x` was taken out of the list and cleaned.
  abbrev taken : World H → World H
  taken w =
      let (task, (m, l)) = dequeue_task (w.sched.store, w.sched.tasks_stopped) in
      record w { sched = record w.sched { store = m; tasks_stopped = l } }

  abbrev cleaned : Ptr → World H → World H
  cleaned x w = record (taken w) {
    heap = (release w.sched.store x (w.heap, w.paging)).0;
    paging = (release w.sched.store x (w.heap, w.paging)).1;
  }

  clean_loop-next :
      (n : ℕ) (x : Ptr) (w : World H) {r : Option (World H)}
      → w.sched.tasks_stopped.head ≢ null
      → (dequeue_task (w.sched.store, w.sched.tasks_stopped)).0 ≡ x
      → clean_loop free n (clean_stopped_task free x (taken w)) ≡ r
      → clean_loop free (suc n) w ≡ r
  unfolding clean_loop
  clean_loop-next n x w ne e h =
      let f : (w.sched.tasks_stopped.head == null) ≡ false = ground arith in rw (f, e) h

  clean_loop-end :
      (n : ℕ) (w : World H) → w.sched.tasks_stopped.head ≡ null → clean_loop free (suc n) w ≡ some w
  unfolding clean_loop
  clean_loop-end n w e =
      let f : (w.sched.tasks_stopped.head == null) ≡ true = ground arith in rw f refl

  Cleaned-cons :
      (x : Ptr) (xs : List Ptr) (w w' : World H)
      → Same w.sched.store (taken w).sched.store
      → (taken w).sched.store ≡ set_next w.sched.store x null
      → Cleaned xs (cleaned x w) w'
      → Cleaned (x ∷ xs) w w'
  Cleaned-cons x xs w w' same link c = record {
    released = c.released ∙ release_all-Same w.sched.store (taken w).sched.store xs _ same;
    store = c.store ∙ ap (λ m. unlinked m xs) link;
    empty = c.empty;
    rest = c.rest;
  }

  -- With a round for each stopped task and one more, with stack pointers in the 32-bit address space and a
  -- well linked list of stopped tasks, the cleaner's loop ends. For every stopped task in turn it calls `freePage` for the page of its stack, and
  -- then `free` for its structure if the heap gave it. The list of stopped tasks is empty afterwards, the
  -- stopped tasks are linked to none, and apart from what the two routines do nothing else changes, in
  -- the tasks' structures and in the scheduler.
  pub clean_loop-Cleaned :
      (n : ℕ) (xs : List Ptr) (w : World H)
      → count xs < n
      → Holds (w.sched.store, w.sched.tasks_stopped) xs
      → Fit w.sched.store xs
      → (w' : World H) × (clean_loop free n w ≡ some w') × Cleaned xs w w'
  clean_loop-Cleaned zero xs w lt h f = absurd (omega arith)
  clean_loop-Cleaned (suc n) [] w lt h f = (
    w,
    clean_loop-end n w h.chain,
    record { released = refl; store = refl; empty = h; rest = refl },
  )
  clean_loop-Cleaned (suc n) (x ∷ xs) w lt h (fx, f) =
      let (at, holds, link) = dequeue_task-Holds h in
      let same : Same w.sched.store (taken w).sched.store =
        subst (Same w.sched.store) (sym link) (set_next-Same w.sched.store x null) in
      let here : clean_stopped_task free x (taken w) ≡ cleaned x w =
        clean_stopped_task-release x (taken w) (subst (λ a. a < 2 ^ 32) (sym (same x).0) fx)
        ∙ ap (λ (r : H × Paging). record (taken w) { heap = r.0; paging = r.1 })
            (release-Same w.sched.store (taken w).sched.store x (w.heap, w.paging) same) in
      let (w', run, c) =
        clean_loop-Cleaned n xs (cleaned x w) (omega arith) holds
          (Fit-Same w.sched.store (taken w).sched.store xs same f) in
      (
        w',
        clean_loop-next n x w (subst (λ p. p ≢ null) (sym h.chain.0) h.chain.1) at
            (ap (clean_loop free n) here ∙ run),
        Cleaned-cons x xs w w' same link c,
      )
