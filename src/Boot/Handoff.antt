-- ===== src/Boot/Handoff.antt =====
-- Kernel/Bootloader/Handoff.cpp: the tags of the boot loader, for which the protocol's header stands
-- outside of this repository. The numbers that the header gives to the kinds of memory are a parameter,
-- `Kinds`; a tag is what the switch on its identifier takes it for. The log is left out.
use xyris.Base.{
  ℕ, ◌+◌, ◌%◌, ◌==◌, leb, if◌then◌else◌, List, [], ◌∷◌, length, set, Option, none, some, word,
}
use xyris.Base.Maybe.{◌>>=◌}
use xyris.Boot.Arguments.{Argument, parse_command_line}
use xyris.Devices.Graphics.{Framebuffer}
use xyris.Memory.Section.{Section, Kind, MemoryMap, max_sections, section}

-- The protocol's values of the kinds of memory.
pub record Kinds : Type 0 where
  pub usable : ℕ
  pub reserved : ℕ
  pub acpi_reclaimable : ℕ
  pub acpi_nvs : ℕ
  pub bad_memory : ℕ
  pub bootloader_reclaimable : ℕ
  pub kernel_and_modules : ℕ

-- An entry of the boot loader's map, with 64-bit numbers.
pub record Entry : Type 0 where
  pub base : ℕ
  pub size : ℕ
  pub kind : ℕ

-- The tags, in the order in which they are linked.
pub data Tag : Type 0 where
  memmap : List Entry → Tag
  cmdline : List ℕ → Tag
  framebuffer : Framebuffer → Tag
  unknown : ℕ → Tag

-- The switch on the kind of an entry.
unfoldable pub section_kind : Kinds → ℕ → Kind
section_kind k kind =
    if kind == k.usable
    then Kind.available
    else (if kind == k.reserved
        then Kind.reserved
        else (if kind == k.acpi_reclaimable
            then Kind.acpi
            else (if kind == k.acpi_nvs
                then Kind.nvs
                else (if kind == k.bad_memory
                    then Kind.bad
                    else (if kind == k.bootloader_reclaimable
                        then Kind.bootloader
                        else (if kind == k.kernel_and_modules
                            then Kind.kernel
                            else Kind.unknown))))))

-- `Section(entry.base, entry.length)` takes the numbers as `uintptr_t`; `setType` follows.
abbrev pub entry_section : Kinds → Entry → Section
entry_section k e = record (section (e.base % word) (e.size % word)) {
  kind = section_kind k e.kind;
}

-- The loop over the entries from index `i` on.
unfoldable pub load_entries : Kinds → List Entry → ℕ → MemoryMap → MemoryMap
load_entries k [] i map = map
load_entries k (e ∷ es) i map = load_entries k es (i + 1) (set map i (entry_section k e))

module _ (S : Type 0) where
  -- `class Handoff`, with the state `S` of what the arguments' callbacks change.
  pub record Handoff : Type 0 where
    pub cmdline : List ℕ
    pub framebuffer : Option Framebuffer
    pub memory_map : MemoryMap
    pub kernel : S

module _ {S : Type 0} (k : Kinds) (args : List (Argument S)) where
  -- One round of the loop over the tags: none where the kernel panics.
  unfoldable pub parse_tag : Handoff S → Tag → Option (Handoff S)
  parse_tag h (memmap es) =
      if leb (length es) max_sections
      then some (record h { memory_map = load_entries k es 0 h.memory_map })
      else none
  parse_tag h (cmdline text) =
      some (record h { cmdline = text; kernel = parse_command_line args text h.kernel })
  parse_tag h (framebuffer fb) =
      some (record h { framebuffer = some (record fb { addr = fb.addr % word }) })
  parse_tag h (unknown id) = some h

  -- `parseStivale2`
  unfoldable pub parse_stivale2 : List Tag → Handoff S → Option (Handoff S)
  parse_stivale2 [] h = some h
  parse_stivale2 (t ∷ tags) h = parse_tag h t >>= λ g. parse_stivale2 tags g

-- `Handoff(handoff, magic)`: none where the kernel panics. `magic_number` is STIVALE2_MAGIC.
abbrev pub magic_number : ℕ
magic_number = 0x73747632

unfoldable pub handoff :
    {S : Type 0} → Kinds → List (Argument S) → ℕ → List Tag → Handoff S → Option (Handoff S)
handoff k args magic tags h =
    let parsed = parse_stivale2 k args tags h in if magic == magic_number then parsed else none
