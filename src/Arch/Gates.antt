-- ===== src/Arch/Gates.antt =====
-- Kernel/Arch/i686/idt.cpp and idt.hpp: the gates of the interrupt table.
use xyris.Base.{ℕ, ◌+◌, ◌*◌, ◌/◌, ◌%◌, ◌^◌, Bool, true, false, ◌==◌, if◌then◌else◌}

-- `enum GateType`
pub data GateType : Type 0 where
  task_gate interrupt_gate_16_bit trap_gate_16_bit interrupt_gate_32_bit trap_gate_32_bit : GateType

abbrev pub code : GateType → ℕ
code task_gate = 0x5
code interrupt_gate_16_bit = 0x6
code trap_gate_16_bit = 0x7
code interrupt_gate_32_bit = 0xe
code trap_gate_32_bit = 0xf

-- `struct Segment`, a selector.
pub record Segment : Type 0 where
  pub privilege : ℕ
  pub table : Bool
  pub index : ℕ

-- `struct Gate`, with the members of `flags`.
pub record Gate : Type 0 where
  pub offset_low : ℕ
  pub selector : Segment
  pub reserved : ℕ
  pub gate_type : GateType
  pub offset : Bool
  pub privilege : ℕ
  pub present : Bool
  pub offset_high : ℕ

-- The fields of the union `Offset`.
abbrev pub section_low : ℕ → ℕ
section_low value = value % 2 ^ 16

abbrev pub section_high : ℕ → ℕ
section_high value = value / 2 ^ 16 % 2 ^ 16

-- The gate that `setGate` writes.
unfoldable pub gate_for : ℕ → Gate
gate_for handler_addr = record {
  offset_low = section_low handler_addr;
  selector = record { privilege = 0; table = false; index = 1 };
  reserved = 0;
  gate_type = interrupt_gate_32_bit;
  offset = false;
  privilege = 0;
  present = true;
  offset_high = section_high handler_addr;
}

-- `idt`
abbrev pub Gates : Type 0
Gates = ℕ → Gate

unfoldable pub set_gate : Gates → ℕ → ℕ → Gates
set_gate idt n handler_addr m = if n == m then gate_for handler_addr else idt m

-- The address that the processor jumps to through a gate.
abbrev pub target : Gate → ℕ
target g = g.offset_low + 2 ^ 16 * g.offset_high
