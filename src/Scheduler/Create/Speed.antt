-- ===== src/Scheduler/Create/Speed.antt =====
-- The measured speed of the processor is never 0, so that the clock's readings can be divided by it.
use xyris.Base.{
  ℕ, zero, suc, ◌+◌, ◌-◌, ◌/◌, ◌^◌, ◌<◌, ◌≤◌, ◌≡◌, ◌≢◌, refl, sym, ap, subst, ◌∙◌, true, false,
  some, ◌==◌, arith, add_word,
}
use xyris.Scheduler.Task.{sub_u64}
use xyris.Scheduler.Tasks.{Sched}
use xyris.Scheduler.Create.{await_tick, at_least_one, discover_cpu_speed}

await_tick-stops :
    (ticks : ℕ → ℕ) (target n i : ℕ) → ticks i ≡ target → await_tick ticks target (suc n) i ≡ some i
unfolding await_tick
await_tick-stops ticks target n i e = let f : (ticks i == target) ≡ true = ground arith in rw f refl

await_tick-again :
    (ticks : ℕ → ℕ) (target n i : ℕ)
    → ticks i ≢ target
    → await_tick ticks target (suc n) i ≡ await_tick ticks target n (i + 1)
unfolding await_tick
await_tick-again ticks target n i ne =
    let f : (ticks i == target) ≡ false = ground arith in rw f refl

await_tick-first :
    (ticks : ℕ → ℕ) (target k i n : ℕ)
    → k < n
    → ((j : ℕ) → j < k → ticks (i + j) ≢ target)
    → ticks (i + k) ≡ target
    → await_tick ticks target n i ≡ some (i + k)
await_tick-first ticks target k i zero lt before at = absurd (omega arith)
await_tick-first ticks target zero i (suc n) lt before at =
    let e : i + 0 ≡ i = omega arith in
    rw e (await_tick-stops ticks target n i (subst (λ x. ticks x ≡ target) e at))
await_tick-first ticks target (suc k) i (suc n) lt before at =
    let e : i + 0 ≡ i = omega arith in
    let f : i + suc k ≡ i + 1 + k = omega arith in
    await_tick-again ticks target n i (subst (λ x. ticks x ≢ target) e (before 0 (omega arith)))
    ∙ await_tick-first ticks target k (i + 1) n (omega arith)
        (λ j below.
          subst (λ x. ticks x ≢ target) (let g : i + suc j ≡ i + 1 + j = omega arith in g)
            (before (suc j) (omega arith)))
        (subst (λ x. ticks x ≡ target) f at)
    ∙ ap some (sym f)

at_least_one-pos : (n : ℕ) → 0 < at_least_one n
at_least_one-pos n = ground arith

-- If the counter is seen at the next tick within the fuel, the measurement ends, and the speed that it
-- stores is the time-stamps that passed between its two readings, in a millionth, but at least 1.
pub discover_cpu_speed-measures :
    (clock ticks : ℕ → ℕ) (k n : ℕ) (s : Sched)
    → k < n
    → ((j : ℕ) → j < k → ticks (1 + j) ≢ add_word (ticks 0) 1)
    → ticks (1 + k) ≡ add_word (ticks 0) 1
    → clock s.reads ≤ clock (s.reads + 1)
    → clock (s.reads + 1) < 2 ^ 64
    → (speed : ℕ) × (discover_cpu_speed clock ticks n s
        ≡ some (record s { reads = s.reads + 2; instr_per_ns = speed }))
      × (speed ≡ at_least_one ((clock (s.reads + 1) - clock s.reads) / 1000000))
      × (0 < speed)
unfolding discover_cpu_speed
discover_cpu_speed-measures clock ticks k n s lt before at mono fits =
    let e : sub_u64 (clock (s.reads + 1)) (clock s.reads) ≡ clock (s.reads + 1) - clock s.reads =
      omega arith in
    rw (await_tick-first ticks (add_word (ticks 0) 1) k 1 n lt before at, e)
      (
        at_least_one ((clock (s.reads + 1) - clock s.reads) / 1000000),
        refl,
        refl,
        at_least_one-pos ((clock (s.reads + 1) - clock s.reads) / 1000000),
      )
