-- ===== src/Scheduler/Create/Stack.antt =====
-- The stack of a new task, and what it makes the processor do.
use xyris.Base.{ℕ, ◌+◌, ◌*◌, ◌^◌, ◌≤◌, ◌<◌, ◌≡◌, refl, ◌⊎◌, arith, add_word, sub_word}
use xyris.Scheduler.Create.{Words, stack_push_word, initial_stack, Addresses}

-- What a processor finds that loads `sp`, pops four words, returns, and returns twice more: the words at
-- the stack pointer, the three addresses, and a null frame. All else is as before.
pub record Prepared (at : Addresses) (page entry : ℕ) (words words' : Words) (sp : ℕ) : Type 0 where
  pub pointer : sp ≡ page + 4064
  pub popped : (k : ℕ) → k < 4 → words' (sp + 4 * k) ≡ 0
  pub first : words' (sp + 16) ≡ at.task_starting
  pub second : words' (sp + 20) ≡ entry
  pub third : words' (sp + 24) ≡ at.task_stopping
  pub frame : words' (sp + 28) ≡ 0
  pub outside : (a : ℕ) → (a < page + 4064) ⊎ (page + 4096 ≤ a) → words' a ≡ words a

-- The initial stack of a task fills the last eight words of its page.
pub initial_stack-Prepared :
    (at : Addresses) (words : Words) (page entry : ℕ)
    → page + 4096 ≤ 2 ^ 32
    → Prepared at page entry words
        (initial_stack at words page entry).0
        (initial_stack at words page entry).1
unfolding initial_stack stack_push_word
initial_stack-Prepared at words page entry fits =
    let e1 : sub_word (add_word page 4096) 4 ≡ page + 4092 = omega arith in
    let e2 : sub_word (page + 4092) 4 ≡ page + 4088 = omega arith in
    let e3 : sub_word (page + 4088) 4 ≡ page + 4084 = omega arith in
    let e4 : sub_word (page + 4084) 4 ≡ page + 4080 = omega arith in
    let e5 : sub_word (page + 4080) 4 ≡ page + 4076 = omega arith in
    let e6 : sub_word (page + 4076) 4 ≡ page + 4072 = omega arith in
    let e7 : sub_word (page + 4072) 4 ≡ page + 4068 = omega arith in
    let e8 : sub_word (page + 4068) 4 ≡ page + 4064 = omega arith in
    rw (e1, e2, e3, e4, e5, e6, e7, e8)
      (record {
        pointer = refl;
        popped = λ k lt. ground arith;
        first = ground arith;
        second = ground arith;
        third = ground arith;
        frame = ground arith;
        outside = λ a out. ground arith;
      })
