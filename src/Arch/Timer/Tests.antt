-- ===== src/Arch/Timer/Tests.antt =====
-- Runs of the timer, and its theorems at concrete callbacks, rates and readings.
use xyris.Base.{ℕ, ◌+◌, ◌≡◌, refl, some, List, [], ◌∷◌, ◌++◌}
use xyris.Arch.Timer.{no_timer, timer_callback, timer_commands, sleep, wait_loop, divisor}
use xyris.Arch.Timer.Callbacks.{register_all, first, call_all, timer_callback-calls}

-- A callback that leaves a mark.
abbrev mark : ℕ → List ℕ → List ℕ
mark n w = w ++ (n ∷ [])

abbrev marks : List (List ℕ → List ℕ)
marks = mark 1 ∷ mark 2 ∷ mark 3 ∷ mark 4 ∷ mark 5 ∷ mark 6 ∷ mark 7 ∷ mark 8 ∷ []

eighth_lost : call_all (first 7 marks) [] ≡ 1 ∷ 2 ∷ 3 ∷ 4 ∷ 5 ∷ 6 ∷ 7 ∷ []
eighth_lost = refl

timer_callback-calls_example :
    timer_callback (register_all no_timer marks) []
    ≡ some (record (register_all no_timer marks) { timer_tick = 1 }, 1 ∷ 2 ∷ 3 ∷ 4 ∷ 5 ∷ 6 ∷ 7 ∷ [])
timer_callback-calls_example = timer_callback-calls marks []

commands_1000 : timer_commands 1000 ≡ some ((0x43, 0x36) ∷ (0x40, 169) ∷ (0x40, 4) ∷ [])
unfolding timer_commands divisor
commands_1000 = refl

-- One reading for each tick.
abbrev ticks : ℕ → ℕ
ticks i = 100 + i

sleep_5 : sleep ticks 5 10 ≡ some 5
unfolding sleep wait_loop
sleep_5 = refl
