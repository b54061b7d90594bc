-- ===== src/Arch/Timer/Wait.antt =====
-- How long `sleep` waits.
use xyris.Base.{
  ℕ, zero, suc, ◌+◌, ◌^◌, ◌≤◌, ◌<◌, ◌≡◌, refl, sym, ap, subst, ◌∙◌, some, arith, ltb, add_word,
  true, false,
}
use xyris.Arch.Timer.{wait_loop, sleep}

wait_loop-again :
    (ticks : ℕ → ℕ) (final n i : ℕ)
    → ticks i < final
    → wait_loop ticks final (suc n) i ≡ wait_loop ticks final n (i + 1)
unfolding wait_loop
wait_loop-again ticks final n i lt = let e : ltb (ticks i) final ≡ true = ground arith in rw e refl

wait_loop-stops :
    (ticks : ℕ → ℕ) (final n i : ℕ) → final ≤ ticks i → wait_loop ticks final (suc n) i ≡ some i
unfolding wait_loop
wait_loop-stops ticks final n i le = let e : ltb (ticks i) final ≡ false = ground arith in rw e refl

-- The loop ends at the first reading from `i` on that is not below `final`.
wait_loop-first :
    (ticks : ℕ → ℕ) (final k i n : ℕ)
    → k < n
    → ((j : ℕ) → j < k → ticks (i + j) < final)
    → final ≤ ticks (i + k)
    → wait_loop ticks final n i ≡ some (i + k)
wait_loop-first ticks final zero i zero lt before at = absurd (omega arith)
wait_loop-first ticks final zero i (suc n) lt before at =
    let e : i + 0 ≡ i = omega arith in
    rw e (wait_loop-stops ticks final n i (subst (λ x. final ≤ ticks x) e at))
wait_loop-first ticks final (suc k) i zero lt before at = absurd (omega arith)
wait_loop-first ticks final (suc k) i (suc n) lt before at =
    let e : i + 0 ≡ i = omega arith in
    let f : i + suc k ≡ i + 1 + k = omega arith in
    wait_loop-again ticks final n i (subst (λ x. ticks x < final) e (before 0 (omega arith)))
    ∙ wait_loop-first ticks final k (i + 1) n (omega arith)
        (λ j below.
          subst (λ x. ticks x < final) (let g : i + suc j ≡ i + 1 + j = omega arith in g)
            (before (suc j) (omega arith)))
        (subst (λ x. final ≤ ticks x) f at)
    ∙ ap some (sym f)

-- While the counter does not pass 2 ^ 32, `sleep` returns, at the first reading of the loop at which
-- `ms` ticks have passed.
pub sleep-waits :
    (ticks : ℕ → ℕ) (ms k n : ℕ)
    → ticks 0 + ms < 2 ^ 32
    → k < n
    → ((j : ℕ) → j < k → ticks (1 + j) < ticks 0 + ms)
    → ticks 0 + ms ≤ ticks (1 + k)
    → sleep ticks ms n ≡ some (1 + k)
unfolding sleep
sleep-waits ticks ms k n fits lt before at =
    let e : add_word (ticks 0) ms ≡ ticks 0 + ms = omega arith in
    rw e (wait_loop-first ticks (ticks 0 + ms) k 1 n lt before at)

-- Where the end of the wait is past 2 ^ 32, `sleep` does not wait at all: it returns at the first reading
-- of the loop, if the counter is still where it was or later.
pub sleep-wraps :
    (ticks : ℕ → ℕ) (ms n : ℕ)
    → ticks 0 < 2 ^ 32
    → ms < 2 ^ 32
    → 2 ^ 32 ≤ ticks 0 + ms
    → ticks 0 ≤ ticks 1
    → sleep ticks ms (suc n) ≡ some 1
unfolding sleep
sleep-wraps ticks ms n ht hm over le =
    wait_loop-stops ticks (add_word (ticks 0) ms) n 1 (omega arith)
