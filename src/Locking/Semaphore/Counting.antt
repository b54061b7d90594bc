-- ===== src/Locking/Semaphore/Counting.antt =====
-- The count is what the posts have added and the waits have taken.
use xyris.Base.{ℕ, ◌+◌, ◌≤◌, ◌<◌, ◌≡◌, ◌≢◌, arith, ◌==◌, word, Bool-cases, inl, inr, subst}
use xyris.Locking.{update}
use xyris.Locking.Semaphore.{
  Semaphore, semaphore, Mode, Pc, outside, loading, loaded, comparing, blocking, blocked, posting,
  woken, Step, call, load, test, see_zero, give_up, spin, block, exchange, fail, add, unblock,
  Reach, here, later,
}

-- A task at its compare-exchange has seen a count that is not 0.
abbrev HasSeen : Pc → Type 0
HasSeen (comparing m v) = v ≢ 0
HasSeen _ = Unit {0}

-- As long as the numbers fit a word, what the posts added is what was taken and what is left.
record Inv (val : ℕ) (s : Semaphore) : Type 0 where
  balance : val + s.posts < word → s.count + s.waits ≡ val + s.posts
  seen : (i : ℕ) → HasSeen (s.pc i)

seen-update :
    (pc : ℕ → Pc) (i : ℕ) (p : Pc)
    → HasSeen p
    → ((j : ℕ) → HasSeen (pc j))
    → (j : ℕ) → HasSeen (update pc i p j)
seen-update pc i p h all j = elim (Bool-cases (i == j)) [
  | inl same ↦ rw same h
  | inr other ↦ rw other (all j)
]

seen-woken : (p : Pc) → HasSeen p → HasSeen (woken p)
seen-woken outside h = h
seen-woken (loading m) h = h
seen-woken (loaded m v) h = h
seen-woken (comparing m v) h = h
seen-woken blocking h = h
seen-woken blocked h = tt
seen-woken posting h = h

-- A step of task `i` to `p` that leaves the numbers alone.
moves :
    {val : ℕ} (s : Semaphore) (i : ℕ) (p : Pc)
    → HasSeen p
    → Inv val s
    → Inv val (record s { pc = update s.pc i p })
moves s i p h v = record { balance = v.balance; seen = seen-update s.pc i p h v.seen }

Step-Inv : {val : ℕ} {s : Semaphore} {i : ℕ} {t : Semaphore} → Step s i t → Inv val s → Inv val t
Step-Inv {s} {i} (call m p) v = moves s i (loading m) tt v
Step-Inv {s} {i} (load m p) v = moves s i (loaded m s.count) tt v
Step-Inv {s} {i} (test m x p ne) v = moves s i (comparing m x) ne v
Step-Inv {s} {i} (see_zero x p e) v = moves s i blocking tt v
Step-Inv {s} {i} (give_up x p e) v = moves s i outside tt v
Step-Inv {s} {i} (spin x p e) v = moves s i (loading Mode.spins) tt v
Step-Inv {s} {i} (block p) v = moves s i blocked tt v
Step-Inv {s} {i} (exchange m x p e) v =
    let ne : x ≢ 0 = subst HasSeen p (v.seen i) in
    record {
      balance = λ h. omega (arith, v.balance h);
      seen = seen-update s.pc i outside tt v.seen;
    }
Step-Inv {s} {i} (fail m x p ne) v = moves s i (loaded m s.count) tt v
Step-Inv {val} {s} {i} (add p) v = record {
  balance = λ h.
      let before = v.balance (omega arith) in
      let small : s.count + 1 < word = omega arith in omega arith;
  seen = seen-update s.pc i posting tt v.seen;
}
Step-Inv {s} {i} (unblock p) v = record {
  balance = v.balance;
  seen = seen-update (λ j. woken (s.pc j)) i outside tt (λ j. seen-woken (s.pc j) (v.seen j));
}

Reach-Inv : {val : ℕ} {s : Semaphore} → Reach (semaphore val) s → Inv val s
Reach-Inv here = record { balance = λ h. omega arith; seen = λ i. tt }
Reach-Inv (later i r st) = Step-Inv st (Reach-Inv r)

-- In every state that the tasks reach, and as long as the initial value and the posts together fit 32
-- bits, the count is the initial value and the posts less the waits that have succeeded; so no more
-- waits succeed than the initial value and the posts allow.
pub count_balance :
    {val : ℕ} {s : Semaphore}
    → Reach (semaphore val) s
    → val + s.posts < word
    → (s.count + s.waits ≡ val + s.posts) × (s.waits ≤ val + s.posts)
count_balance r h = let e = (Reach-Inv r).balance h in (e, omega arith)
