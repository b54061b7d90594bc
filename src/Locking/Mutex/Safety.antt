-- ===== src/Locking/Mutex/Safety.antt =====
-- At most one task holds the mutex; but a task may sleep on a free mutex.
use xyris.Base.{ℕ, ◌≡◌, ◌≢◌, refl, arith, true, false}
use xyris.Locking.{update}
use xyris.Locking.Mutex.{
  Mutex, mutex, Pc, outside, trying, refused, blocked, holding, cleared, woken, Step, call_lock,
  take, refuse, block, try_take, try_fail, clear, unblock, Reach, here, later,
}

-- Holders exclude one another and have the mutex locked; a locked mutex has a holder.
pub record Inv (s : Mutex) : Type 0 where
  pub unique : (i j : ℕ) → s.pc i ≡ holding → s.pc j ≡ holding → i ≡ j
  pub locked : (i : ℕ) → s.pc i ≡ holding → s.is_locked ≡ true
  pub held : s.is_locked ≡ true → (i : ℕ) × (s.pc i ≡ holding)

Inv-start : Inv mutex
Inv-start = record { unique = λ i j p q. cc; locked = λ i p. cc; held = λ e. cc }

-- A step that leaves the flag alone and makes no holder, and unmakes none.
module _ (s : Mutex) (v : Inv s) (i : ℕ) (p : Pc) where
  same_holders : s.pc i ≢ holding → p ≢ holding → Inv (record s { pc = update s.pc i p })
  same_holders was now = record {
    unique = λ a b ha hb. ground (arith, v.unique a b);
    locked = λ a ha. ground (arith, v.locked a);
    held = λ e. let (h, ph) = v.held e in (h, ground arith);
  }

taken :
    (s : Mutex) (v : Inv s) (i : ℕ)
    → s.is_locked ≡ false
    → Inv (record { is_locked = true; pc = update s.pc i holding })
taken s v i free = record {
  unique = λ a b ha hb. ground (arith, v.locked a, v.locked b);
  locked = λ a ha. refl;
  held = λ e. (i, ground arith);
}

refused_taken :
    (s : Mutex) (v : Inv s) (i : ℕ) (p : Pc)
    → s.is_locked ≡ true
    → s.pc i ≢ holding
    → p ≢ holding
    → Inv (record { is_locked = true; pc = update s.pc i p })
refused_taken s v i p e was now = record {
  unique = λ a b ha hb. ground (arith, v.unique a b);
  locked = λ a ha. refl;
  held = λ t. let (h, ph) = v.held e in (h, ground arith);
}

woken-holding : (p : Pc) → woken p ≡ holding → p ≡ holding
woken-holding outside e = cc
woken-holding trying e = cc
woken-holding refused e = cc
woken-holding blocked e = cc
woken-holding holding e = e
woken-holding cleared e = cc

still_held :
    (s : Mutex) (i a : ℕ) → update (λ j. woken (s.pc j)) i outside a ≡ holding → s.pc a ≡ holding
still_held s i a h = woken-holding (s.pc a) (ground arith)

Step-Inv : {s : Mutex} {i : ℕ} {t : Mutex} → Step s i t → Inv s → Inv t
Step-Inv {s} {i} (call_lock p) v = same_holders s v i trying (λ h. cc) (λ h. cc)
Step-Inv {s} {i} (take p e) v = taken s v i e
Step-Inv {s} {i} (refuse p e) v = refused_taken s v i refused e (λ h. cc) (λ h. cc)
Step-Inv {s} {i} (block p) v = same_holders s v i blocked (λ h. cc) (λ h. cc)
Step-Inv {s} {i} (try_take p e) v = taken s v i e
Step-Inv {s} {i} (try_fail p e) v = record {
  unique = v.unique;
  locked = λ a ha. refl;
  held = λ t. v.held e;
}
Step-Inv {s} {i} (clear p) v = record {
  unique = λ a b ha hb. ground (arith, v.unique a b);
  locked = λ a ha. ground (arith, v.unique a i);
  held = λ e. cc;
}
Step-Inv {s} {i} (unblock p) v = record {
  unique = λ a b ha hb. v.unique a b (still_held s i a ha) (still_held s i b hb);
  locked = λ a ha. v.locked a (still_held s i a ha);
  held = λ e. let (h, ph) = v.held e in (h, ground (arith, ph));
}

pub Reach-Inv : {s : Mutex} → Reach mutex s → Inv s
Reach-Inv here = Inv-start
Reach-Inv (later i r st) = Step-Inv st (Reach-Inv r)

-- In every state that the tasks reach, two tasks that hold the mutex are the same task, and while one
-- holds it the mutex is locked.
pub mutual_exclusion :
    {s : Mutex}
    → Reach mutex s
    → (i j : ℕ) → s.pc i ≡ holding
    → s.pc j ≡ holding
    → (i ≡ j) × (s.is_locked ≡ true)
mutual_exclusion r i j hi hj = ((Reach-Inv r).unique i j hi hj, (Reach-Inv r).locked i hi)

-- The mutex is free, nobody holds it, and `j` sleeps.
pub record Sleeps (j : ℕ) (t : Mutex) : Type 0 where
  pub free : t.is_locked ≡ false
  pub nobody : (k : ℕ) → t.pc k ≢ holding
  pub asleep : t.pc j ≡ blocked

module _ (s : Mutex) (i j : ℕ) (ne : i ≢ j) where
  abbrev refused_j : Mutex
  refused_j = record { is_locked = true; pc = update s.pc j refused }

  abbrev cleared_i : Mutex
  cleared_i = record { is_locked = false; pc = update refused_j.pc i cleared }

  abbrev unblocked : Mutex
  unblocked = record cleared_i { pc = update (λ k. woken (cleared_i.pc k)) i outside }

  abbrev asleep_j : Mutex
  asleep_j = record unblocked { pc = update unblocked.pc j blocked }

  slept :
      Reach mutex s → s.pc i ≡ holding → s.pc j ≡ trying → s.is_locked ≡ true → Reach mutex asleep_j
  slept r hi tj e =
      later j
        (later i (later i (later j r (refuse tj e)) (clear (ground arith)))
          (unblock (ground arith)))
        (block (ground arith))

-- A wake-up can be lost: where a task holds the mutex and another is about to test it, the tasks can
-- reach a state in which the mutex is free, nobody holds it, and the other task sleeps.
pub lost_wakeup :
    {s : Mutex}
    → Reach mutex s
    → (i j : ℕ) → s.pc i ≡ holding
    → s.pc j ≡ trying
    → (t : Mutex) × Reach mutex t × Sleeps j t
lost_wakeup {s} r i j hi tj =
    let ne : i ≢ j = λ e. ground (arith, hi, tj) in
    let reached = slept s i j ne r hi tj ((Reach-Inv r).locked i hi) in
    (
      asleep_j s i j ne,
      reached,
      record {
        free = refl;
        nobody = λ k h. cc ((Reach-Inv reached).locked k h);
        asleep = ground arith;
      },
    )
