-- ===== src/Arch/Interrupts/Tests.antt =====
-- The interrupt table and the dispatch at concrete stubs and handlers.
use xyris.Base.{
  ℕ, ◌+◌, ◌*◌, ◌<◌, ◌≤◌, ◌≡◌, refl, false, Option, none, List, [], ◌∷◌, arith, ◌^◌, ◌%◌,
}
use xyris.Arch.Gates.{Gates, gate_for}
use xyris.Arch.Interrupts.{
  init, Handler, WriteByte, acknowledge, register_handler, interrupt_handler, interrupt_8, vector,
}
use xyris.Arch.Interrupts.Table.{LeadsTo, init-LeadsTo}
use xyris.Arch.Interrupts.Dispatch.{interrupt_handler-registered}

abbrev blank : Gates
unfolding gate_for
blank n = record (gate_for 0) { present = false }

abbrev exceptions : ℕ → ℕ
exceptions n = (0x100000 + n * 16) % 2 ^ 32

abbrev requests : ℕ → ℕ
requests n = (0x200000 + n * 16) % 2 ^ 32

init-LeadsTo_example :
    let after = (init exceptions requests blank).0 in
    ((n : ℕ) → n < 32 → LeadsTo (after n) (exceptions n))
    × ((n : ℕ) → n < 16 → LeadsTo (after (32 + n)) (requests n))
    × ((n : ℕ) → 48 ≤ n → after n ≡ blank n)
init-LeadsTo_example = init-LeadsTo exceptions requests blank (λ n. omega arith) (λ n. omega arith)

-- The machine is what has happened, the latest first: a write to a port, or a handler's run, with 0 for
-- the port.
abbrev Trace : Type 0
Trace = List (ℕ × ℕ)

abbrev record_write : WriteByte Trace
record_write port byte w = (port, byte) ∷ w

abbrev record_run : Handler Trace
record_run int_num w = (0, int_num) ∷ w

abbrev nothing : ℕ → Option (Handler Trace)
nothing n = none

-- The clock's handler runs behind both ends of interrupt.
clock_runs :
    interrupt_handler record_write (register_handler nothing (vector interrupt_8) record_run) 40 []
    ≡ (0, 40) ∷ (0x20, 0x20) ∷ (0xa0, 0x20) ∷ []
unfolding interrupt_handler register_handler acknowledge
clock_runs = refl

interrupt_handler-registered_example :
    interrupt_handler record_write (register_handler nothing (vector interrupt_8) record_run) 40 []
    ≡ (0, 40) ∷ (0x20, 0x20) ∷ (0xa0, 0x20) ∷ []
interrupt_handler-registered_example =
    interrupt_handler-registered record_write nothing interrupt_8 record_run [] (λ e. cc)
