-- ===== src/Arch/Timer.antt =====
-- Kernel/Arch/i686/timer.cpp: the tick counter, the callbacks and the busy wait.
-- A callback is a function on the state `W` of the rest of the kernel, and `ticks i` is what the i-th
-- reading of `timer_tick` gives. Writes to ports are a list, the latest last.
pub mod Callbacks
pub mod Rate
pub mod Wait
mod Tests
use xyris.Base.{
  ℕ, zero, suc, ◌+◌, ◌-◌, ◌*◌, ◌/◌, ◌%◌, ◌^◌, Option, none, some, List, [], ◌∷◌, ◌==◌, ltb,
  if◌then◌else◌, add_word, Bool,
}

abbrev pub timer_command_port : ℕ
timer_command_port = 0x43

abbrev pub timer_data_port : ℕ
timer_data_port = 0x40

abbrev pub max_callbacks : ℕ
max_callbacks = 8

-- `timer_tick`, `_callback_count` and `_callbacks`; a slot that was never written holds NULL.
pub record Timer (C : Type 0) : Type 0 where
  pub timer_tick : ℕ
  pub callback_count : ℕ
  pub callbacks : ℕ → Option C

abbrev pub no_timer : {C : Type 0} → Timer C
no_timer = record { timer_tick = 0; callback_count = 0; callbacks = λ i. none }

abbrev pub update : {A : Type 0} → (ℕ → A) → ℕ → A → ℕ → A
update f i a j = if i == j then a else f j

unfoldable pub timer_register_callback : {C : Type 0} → Timer C → C → Timer C
timer_register_callback t func =
    if ltb t.callback_count (max_callbacks - 1)
    then record t {
      callbacks = update t.callbacks t.callback_count (some func);
      callback_count = t.callback_count + 1;
    }
    else t

-- The divisor of the interval timer's frequency; `none` is the division by zero.
unfoldable pub divisor : ℕ → Option ℕ
divisor freq = if freq == 0 then none else some (1193180 / freq)

abbrev pub low_byte : ℕ → ℕ
low_byte d = d % 2 ^ 8

abbrev pub high_byte : ℕ → ℕ
high_byte d = d / 2 ^ 8 % 2 ^ 8

-- What `timer_init` writes to the ports, as port and byte.
abbrev pub rate_commands : ℕ → List (ℕ × ℕ)
rate_commands d =
    (timer_command_port, 0x36) ∷ (timer_data_port, low_byte d) ∷ (timer_data_port, high_byte d) ∷ []

abbrev pub commands_for : Option ℕ → Option (List (ℕ × ℕ))
commands_for none = none
commands_for (some d) = some (rate_commands d)

unfoldable pub timer_commands : ℕ → Option (List (ℕ × ℕ))
timer_commands freq = commands_for (divisor freq)

-- The busy wait of `sleep` from the i-th reading on: the reading that ends it.
unfoldable pub wait_loop : (ℕ → ℕ) → ℕ → ℕ → ℕ → Option ℕ
wait_loop ticks final zero i = none
wait_loop ticks final (suc n) i =
    let again = wait_loop ticks final n (i + 1) in if ltb (ticks i) final then again else some i

-- `sleep`: the first reading is `start`, and those of the loop follow.
unfoldable pub sleep : (ℕ → ℕ) → ℕ → ℕ → Option ℕ
sleep ticks ms n = wait_loop ticks (add_word (ticks 0) ms) n 1

-- A call through a slot; one through NULL is not modelled further.
abbrev pub call : {W : Type 0} → Option (W → W) → W → Option W
call none w = none
call (some f) w = some (f w)

abbrev pub then_next : {W : Type 0} → (W → Option W) → Option W → Option W
then_next rest none = none
then_next rest (some w) = rest w

-- The loop of `timer_callback`, `n` rounds from slot `i` on.
unfoldable pub call_loop : {W : Type 0} → (ℕ → Option (W → W)) → ℕ → ℕ → W → Option W
call_loop callbacks zero i w = some w
call_loop callbacks (suc n) i w =
    then_next (λ v. call_loop callbacks n (i + 1) v) (call (callbacks i) w)

abbrev pub with_timer : {W : Type 0} → Timer (W → W) → Option W → Option (Timer (W → W) × W)
with_timer t none = none
with_timer t (some w) = some (t, w)

-- `timer_callback` counts the tick and calls the callbacks; they cannot change the table.
unfoldable pub timer_callback : {W : Type 0} → Timer (W → W) → W → Option (Timer (W → W) × W)
unfolding call_loop
timer_callback t w =
    with_timer (record t { timer_tick = add_word t.timer_tick 1 })
      (call_loop t.callbacks t.callback_count 0 w)
