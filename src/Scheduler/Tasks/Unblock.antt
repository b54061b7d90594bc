-- ===== src/Scheduler/Tasks/Unblock.antt =====
-- `tasks_sync_unblock`: its loop wakes every waiting task, in order.
use xyris.Base.{
  ℕ, zero, suc, ◌≡◌, ◌≢◌, refl, ap, subst, ◌∙◌, true, false, List, [], ◌∷◌, ◌++◌, arith, ◌==◌, ◌-◌,
  ◌^◌, ◌≤◌, some, append_assoc,
}
use xyris.Scheduler.Task.{Ptr, null, ready, Store}
use xyris.Base.Pointers.{Outside, last_or}
use xyris.Scheduler.TaskList.Chain.{Chain, Holds}
use xyris.Scheduler.Tasks.{Sched, wake_unlinked, unblock_loop}
use xyris.Scheduler.TaskList.Apart.{Apart, Chain-Frame, Apart-ends, Apart-snoc, Chain-nonnull}
use xyris.Scheduler.Tasks.Wake.{Wakes, wake_unlinked-Wakes}

abbrev pub count : List Ptr → ℕ
count [] = 0
count (x ∷ xs) = suc (count xs)

-- The tasks `xs` are ready, and no alarm is set for them.
abbrev pub Awake : Store → List Ptr → Type 0
Awake m [] = Unit {0}
Awake m (x ∷ xs) = ((m x).state ≡ ready) × ((m x).wakeup_time ≡ 2 ^ 64 - 1) × Awake m xs

-- The waiting tasks `xs` are awake and queued behind `ys`; no other task, and no other variable of the
-- scheduler, changes.
pub record AllWoken (xs ys : List Ptr) (s t : Sched) : Type 0 where
  pub queue : Holds (t.store, t.tasks_ready) (ys ++ xs)
  pub woken : Awake t.store xs
  pub states : (a : Ptr) → Outside a xs → (t.store a).state ≡ (s.store a).state
  pub times : (a : Ptr) → Outside a xs → (t.store a).wakeup_time ≡ (s.store a).wakeup_time
  pub rest : t ≡ record s { store = t.store; tasks_ready = t.tasks_ready }

-- The loop after one round.
AllWoken-cons :
    (x : Ptr) (xs ys : List Ptr) (s s1 t : Sched)
    → Outside x xs
    → Wakes x ys s s1
    → AllWoken xs (ys ++ (x ∷ [])) s1 t
    → AllWoken (x ∷ xs) ys s t
AllWoken-cons x xs ys s s1 t out w h = record {
  queue = subst (Holds (t.store, t.tasks_ready)) (append_assoc ys (x ∷ []) xs) h.queue;
  woken = (h.states x out ∙ w.woken, h.times x out ∙ w.never, h.woken);
  states = λ a o. h.states a o.1 ∙ w.states a o.0;
  times = λ a o. h.times a o.1 ∙ w.times a o.0;
  rest =
      h.rest ∙ ap (λ (u : Sched). record u { store = t.store; tasks_ready = t.tasks_ready }) w.rest;
}

unblock_loop-last :
    (n : ℕ) (x : Ptr) (s : Sched)
    → (s.store x).next ≡ null
    → unblock_loop (suc n) x s ≡ some (wake_unlinked x s)
unfolding unblock_loop
unblock_loop-last n x s e = let f : ((s.store x).next == null) ≡ true = ground arith in rw f refl

unblock_loop-next :
    (n : ℕ) (x y : Ptr) (s t : Sched)
    → (s.store x).next ≡ y
    → y ≢ null
    → unblock_loop n y (wake_unlinked x s) ≡ some t
    → unblock_loop (suc n) x s ≡ some t
unfolding unblock_loop
unblock_loop-next n x y s t e ne h =
    let f : ((s.store x).next == null) ≡ false = ground arith in
    rw f (ap (λ p. unblock_loop n p (wake_unlinked x s)) e ∙ h)

-- With enough rounds, the loop over the waiting tasks returns, and it has woken all of them in order.
pub unblock_loop-AllWoken :
    (n : ℕ) (x : Ptr) (xs ys : List Ptr) (s : Sched)
    → count (x ∷ xs) ≤ n
    → Chain s.store null (x ∷ xs) x
    → Holds (s.store, s.tasks_ready) ys
    → Apart (x ∷ xs) ys
    → (t : Sched) × (unblock_loop n x s ≡ some t) × AllWoken (x ∷ xs) ys s t
unblock_loop-AllWoken zero x xs ys s le c h a = absurd (omega arith)
unblock_loop-AllWoken (suc n) x [] ys s le c h a =
    let w = wake_unlinked-Wakes x ys s h c.1 a.0 in
    (
      wake_unlinked x s,
      unblock_loop-last n x s c.3,
      record {
        queue = w.queue;
        woken = (w.woken, w.never, tt);
        states = λ b o. w.states b o.0;
        times = λ b o. w.times b o.0;
        rest = w.rest;
      },
    )
unblock_loop-AllWoken (suc n) x (y ∷ xs) ys s le (e, nn, out, c) h (o, a) =
    let s1 = wake_unlinked x s in
    let w = wake_unlinked-Wakes x ys s h nn o in
    let c' =
      Chain-Frame s.store s1.store null (y ∷ xs) (x ∷ last_or null ys ∷ []) y w.frame
        (Apart-ends x (y ∷ xs) ys out (Chain-nonnull s.store null (y ∷ xs) (s.store x).next c) a)
        (subst (Chain s.store null (y ∷ xs)) c.0 c) in
    let (t, run, all) =
      unblock_loop-AllWoken n y xs (ys ++ (x ∷ [])) s1 (omega arith) c' w.queue
        (Apart-snoc x (y ∷ xs) ys out a) in
    (t, unblock_loop-next n x y s t c.0 c.1 run, AllWoken-cons x (y ∷ xs) ys s s1 t out w all)
