-- ===== src/Arch/Interrupts.antt =====
-- Kernel/Arch/i686/isr.cpp and isr.hpp: the gates that `init` sets, and the dispatch of an interrupt to
-- the handler that is registered for it. A handler gets the interrupt's number and changes the state `W`
-- of the rest of the machine, and so does `writeByte`, an instruction that is a parameter of the dispatch;
-- `init` gives its writes as a list of port and byte, the latest last. The addresses of the stubs are
-- parameters, and the instruction that loads the table is left out.
pub mod Table
pub mod Dispatch
mod Tests
use xyris.Base.{
  ℕ, zero, suc, ◌+◌, ◌*◌, Option, none, some, List, [], ◌∷◌, ◌++◌, ◌==◌, leb, if◌then◌else◌,
}
use xyris.Arch.Gates.{Gates, set_gate}

abbrev pub arch_exception_num : ℕ
arch_exception_num = 32

abbrev pub arch_interrupt_num : ℕ
arch_interrupt_num = 16

-- `enum Interrupt`
pub data Interrupt : Type 0 where
  interrupt_0 interrupt_1 interrupt_2 interrupt_3 interrupt_4 interrupt_5 interrupt_6 interrupt_7 :
      Interrupt
  interrupt_8 interrupt_9 interrupt_10 interrupt_11 interrupt_12 interrupt_13 interrupt_14
        interrupt_15 :
      Interrupt

-- The numbers that the enumeration gives.
abbrev pub vector : Interrupt → ℕ
vector interrupt_0 = 0x20
vector interrupt_1 = 0x21
vector interrupt_2 = 0x22
vector interrupt_3 = 0x23
vector interrupt_4 = 0x24
vector interrupt_5 = 0x35
vector interrupt_6 = 0x26
vector interrupt_7 = 0x27
vector interrupt_8 = 0x28
vector interrupt_9 = 0x29
vector interrupt_10 = 0x2a
vector interrupt_11 = 0x2b
vector interrupt_12 = 0x2c
vector interrupt_13 = 0x2d
vector interrupt_14 = 0x2e
vector interrupt_15 = 0x2f

-- The loops of `init`: gates for `n` stubs from the i-th on, the first of them at `base + i`.
unfoldable pub set_gates : (ℕ → ℕ) → ℕ → ℕ → ℕ → Gates → Gates
set_gates stubs base zero i idt = idt
set_gates stubs base (suc n) i idt =
    set_gates stubs base n (i + 1) (set_gate idt (base + i) (stubs i))

-- What `init` writes to the interrupt controllers.
abbrev pub remap_commands : List (ℕ × ℕ)
remap_commands =
    (0x20, 0x11)
    ∷ (0xa0, 0x11)
    ∷ (0x21, 0x20)
    ∷ (0xa1, 0x28)
    ∷ (0x21, 0x04)
    ∷ (0xa1, 0x02)
    ∷ (0x21, 0x01)
    ∷ (0xa1, 0x01)
    ∷ (0x21, 0)
    ∷ (0xa1, 0)
    ∷ []

-- `init`, from the addresses of the stubs: the table, and the writes.
unfoldable pub init : (ℕ → ℕ) → (ℕ → ℕ) → Gates → Gates × List (ℕ × ℕ)
init exception_stubs interrupt_stubs idt = (
  set_gates interrupt_stubs 32 arch_interrupt_num 0
      (set_gates exception_stubs 0 arch_exception_num 0 idt),
  remap_commands,
)

abbrev pub Handler : Type 0 → Type 0
Handler W = ℕ → W → W

-- `registerHandler` on `interruptHandlers`.
unfoldable pub register_handler :
    {W : Type 0} → (ℕ → Option (Handler W)) → ℕ → Handler W → ℕ → Option (Handler W)
register_handler handlers interrupt handler n = if interrupt == n then some handler else handlers n

-- `writeByte`, for a port and a byte.
abbrev pub WriteByte : Type 0 → Type 0
WriteByte W = ℕ → ℕ → W → W

-- The ends of interrupt: to the secondary controller where it has the request, then to the primary one.
unfoldable pub acknowledge : {W : Type 0} → WriteByte W → ℕ → W → W
acknowledge write_byte int_num w =
    let answered = if leb 0x28 int_num then write_byte 0xa0 0x20 w else w in
    write_byte 0x20 0x20 answered

abbrev pub handle : {W : Type 0} → Option (Handler W) → ℕ → W → W
handle none int_num w = w
handle (some handler) int_num w = handler int_num w

-- `interruptHandler`
unfoldable pub interrupt_handler : {W : Type 0} → WriteByte W → (ℕ → Option (Handler W)) → ℕ → W → W
interrupt_handler write_byte handlers int_num w =
    let acknowledged = acknowledge write_byte int_num w in
    handle (handlers int_num) int_num acknowledged
