-- ===== src/Support/Guard/Safety.antt =====
-- At most one task runs the initializer, and none does once it has completed.
use xyris.Base.{
  ℕ, ◌≡◌, ◌≢◌, refl, arith, Bool, true, false, sym, ap, ◌∙◌, ◌⊎◌, inl, inr, ℕ_discrete,
}
use xyris.Locking.{update}
use xyris.Support.Guard.{
  Guard, guard, Pc, outside, waiting, checking, running, releasing, aborting, Step, skip, enter,
  lock, late, panic, start, finish, unlock, abort, reset, Reach, here, later,
}

-- The task holds the mutex.
abbrev holds : Pc → Bool
holds checking = true
holds running = true
holds releasing = true
holds _ = false

record Inv (s : Guard) : Type 0 where
  pub unique : (i j : ℕ) → holds (s.pc i) ≡ true → holds (s.pc j) ≡ true → i ≡ j
  pub locked : (i : ℕ) → holds (s.pc i) ≡ true → s.is_locked ≡ true
  pub fresh : (i : ℕ) → s.pc i ≡ running → s.initialized ≡ false

holds-running : (p : Pc) → p ≡ running → holds p ≡ true
holds-running p e = rw e refl

Inv-start : Inv guard
Inv-start = record { unique = λ i j p q. cc; locked = λ i p. cc; fresh = λ i p. cc }

update-cases :
    (f : ℕ → Pc) (i j : ℕ) (p : Pc)
    → ((i ≡ j) × (update f i p j ≡ p)) ⊎ ((i ≢ j) × (update f i p j ≡ f j))
update-cases f i j p = elim (ℕ_discrete i j) [
  | yes same ↦ inl (same, ground arith)
  | no other ↦ inr (other, ground arith)
]

-- Task `i` goes to `p` without the mutex, which it leaves as it is or frees.
module _ (s : Guard) (v : Inv s) (i : ℕ) (p : Pc) (out : holds p ≡ false) where
  was_held : (j : ℕ) → holds (update s.pc i p j) ≡ true → (i ≢ j) × (holds (s.pc j) ≡ true)
  was_held j h = elim (update-cases s.pc i j p) [
    | inl (same, e) ↦ absurd (ground (arith, ap holds e))
    | inr (other, e) ↦ (other, sym (ap holds e) ∙ h)
  ]

  outside-Inv :
      (b l : Bool)
      → (l ≡ s.is_locked) ⊎ (holds (s.pc i) ≡ true)
      → Inv (record s { in_use = b; is_locked = l; pc = update s.pc i p })
  outside-Inv b l how = record {
    unique = λ a c ha hc. v.unique a c (was_held a ha).1 (was_held c hc).1;
    locked = λ a ha. elim how [
      | inl same ↦ same ∙ v.locked a (was_held a ha).1
      | inr held ↦ absurd ((was_held a ha).0 (v.unique i a held (was_held a ha).1))
    ];
    fresh = λ a ra. elim (update-cases s.pc i a p) [
      | inl (same, e) ↦ let inside = holds-running p (sym e ∙ ra) in absurd (ground arith)
      | inr (other, e) ↦ v.fresh a (sym e ∙ ra)
    ];
  }

-- Task `i` goes to `p` with the mutex, which it had or which was free.
module _ (s : Guard) (v : Inv s) (i : ℕ) (p : Pc)
    (how : (s.is_locked ≡ false) ⊎ (holds (s.pc i) ≡ true)) where
  nobody_else : (j : ℕ) → i ≢ j → holds (s.pc j) ≡ true → ⊥
  nobody_else j ne h = elim how [
    | inl free ↦ let locked = v.locked j h in absurd (ground arith)
    | inr held ↦ ne (v.unique i j held h)
  ]

  is_holder : (j : ℕ) → holds (update s.pc i p j) ≡ true → i ≡ j
  is_holder j h = elim (update-cases s.pc i j p) [
    | inl (same, e) ↦ same
    | inr (other, e) ↦ absurd (nobody_else j other (sym (ap holds e) ∙ h))
  ]

  inside-Inv :
      (init b : Bool)
      → (p ≡ running → init ≡ false)
      → Inv (record s { initialized = init; in_use = b; is_locked = true; pc = update s.pc i p })
  inside-Inv init b fresh = record {
    unique = λ a c ha hc. sym (is_holder a ha) ∙ is_holder c hc;
    locked = λ a ha. refl;
    fresh = λ a ra. elim (update-cases s.pc i a p) [
      | inl (same, e) ↦ fresh (sym e ∙ ra)
      | inr (other, e) ↦ absurd (nobody_else a other (holds-running (s.pc a) (sym e ∙ ra)))
    ];
  }

-- The record with the lock as it is.
relocked :
    (s : Guard) (i : ℕ) (p : Pc) (init b : Bool)
    → s.is_locked ≡ true
    → Inv (record s { initialized = init; in_use = b; is_locked = true; pc = update s.pc i p })
    → Inv (record s { initialized = init; in_use = b; pc = update s.pc i p })
relocked s i p init b e v = record { unique = v.unique; locked = λ a ha. e; fresh = v.fresh }

Step-Inv : {s : Guard} {i : ℕ} {t : Guard} → Step s i t → Inv s → Inv t
Step-Inv {s} {i} (skip p e) v = v
Step-Inv {s} {i} (enter p e) v = outside-Inv s v i waiting refl s.in_use s.is_locked (inl refl)
Step-Inv {s} {i} (lock p e) v = inside-Inv s v i checking (inl e) s.initialized s.in_use (λ h. cc)
Step-Inv {s} {i} (late p e) v = outside-Inv s v i outside refl s.in_use false (inr (ap holds p))
Step-Inv {s} {i} (panic p e u) v = record { unique = v.unique; locked = v.locked; fresh = v.fresh }
Step-Inv {s} {i} (start p e u) v =
    relocked s i running s.initialized true (v.locked i (ap holds p))
      (inside-Inv s v i running (inr (ap holds p)) s.initialized true (λ h. e))
Step-Inv {s} {i} (finish p) v =
    relocked s i releasing true s.in_use (v.locked i (ap holds p))
      (inside-Inv s v i releasing (inr (ap holds p)) true s.in_use (λ h. cc))
Step-Inv {s} {i} (unlock p) v = outside-Inv s v i outside refl s.in_use false (inr (ap holds p))
Step-Inv {s} {i} (abort p) v = outside-Inv s v i aborting refl s.in_use false (inr (ap holds p))
Step-Inv {s} {i} (reset p) v = outside-Inv s v i outside refl false s.is_locked (inl refl)

Reach-Inv : {s : Guard} → Reach guard s → Inv s
Reach-Inv here = Inv-start
Reach-Inv (later i r st) = Step-Inv st (Reach-Inv r)

-- In every state that the tasks reach, two tasks that run the initializer are the same task, and while
-- one runs it the variable is not marked as initialized.
pub initializes_once :
    {s : Guard}
    → Reach guard s
    → (i j : ℕ) → s.pc i ≡ running
    → s.pc j ≡ running
    → (i ≡ j) × (s.initialized ≡ false)
initializes_once {s} r i j p q =
    let v = Reach-Inv r in
    (v.unique i j (holds-running (s.pc i) p) (holds-running (s.pc j) q), v.fresh i p)
