-- ===== src/Arch/Interrupts/Table.antt =====
-- The interrupt table after `init`.
use xyris.Base.{
  ℕ, zero, suc, ◌+◌, ◌^◌, ◌≤◌, ◌<◌, ◌≡◌, refl, sym, ◌∙◌, true, false, arith, ◌==◌, subst,
  ℕ_discrete,
}
use xyris.Arch.Gates.{interrupt_gate_32_bit, Gate, Gates, gate_for, set_gate, target}
use xyris.Arch.Interrupts.{set_gates, init}

set_gate-other : (idt : Gates) (n addr m : ℕ) → (n ≡ m → ⊥) → set_gate idt n addr m ≡ idt m
unfolding set_gate
set_gate-other idt n addr m ne = let e : (n == m) ≡ false = ground arith in rw e refl

set_gate-here : (idt : Gates) (n addr : ℕ) → set_gate idt n addr n ≡ gate_for addr
unfolding set_gate
set_gate-here idt n addr = let e : (n == n) ≡ true = ground arith in rw e refl

-- Gates below the loop's first, and behind its last, stay.
set_gates-other :
    (stubs : ℕ → ℕ) (base n i : ℕ) (idt : Gates) (m : ℕ)
    → (base + i ≤ m → base + i + n ≤ m)
    → set_gates stubs base n i idt m ≡ idt m
unfolding set_gates
set_gates-other stubs base zero i idt m h = refl
set_gates-other stubs base (suc n) i idt m h =
    set_gates-other stubs base n (i + 1) (set_gate idt (base + i) (stubs i)) m (ground arith)
    ∙ set_gate-other idt (base + i) (stubs i) m (ground arith)

set_gates-at :
    (stubs : ℕ → ℕ) (base n i : ℕ) (idt : Gates) (k : ℕ)
    → i ≤ k
    → k < i + n
    → set_gates stubs base n i idt (base + k) ≡ gate_for (stubs k)
unfolding set_gates
set_gates-at stubs base zero i idt k lo hi = absurd (omega arith)
set_gates-at stubs base (suc n) i idt k lo hi = elim (ℕ_discrete i k) [
  | yes e ↦
      set_gates-other stubs base n (i + 1) (set_gate idt (base + i) (stubs i)) (base + k)
        (omega arith)
      ∙ subst (λ j. set_gate idt (base + i) (stubs i) (base + j) ≡ gate_for (stubs j)) e
          (set_gate-here idt (base + i) (stubs i))
  | no ne ↦
      set_gates-at stubs base n (i + 1) (set_gate idt (base + i) (stubs i)) k (omega arith)
        (omega arith)
]

gate_for-target : (a : ℕ) → a < 2 ^ 32 → target (gate_for a) ≡ a
unfolding gate_for
gate_for-target a h = omega arith

-- A gate that leads to the routine at `a`: a 32-bit interrupt gate, which is present, at the kernel's
-- privilege, through the second entry of the global table of segments, with the reserved bits clear.
pub record LeadsTo (g : Gate) (a : ℕ) : Type 0 where
  pub jumps : target g ≡ a
  pub interrupt_gate : g.gate_type ≡ interrupt_gate_32_bit
  pub present : g.present ≡ true
  pub global_table : g.selector.table ≡ false
  pub index : g.selector.index ≡ 1
  pub reserved : (g.reserved ≡ 0) × (g.offset ≡ false)
  pub ring : (g.selector.privilege ≡ 0) × (g.privilege ≡ 0)

gate_for-LeadsTo : (a : ℕ) → a < 2 ^ 32 → LeadsTo (gate_for a) a
unfolding gate_for
gate_for-LeadsTo a h = record {
  jumps = gate_for-target a h;
  interrupt_gate = refl;
  present = refl;
  global_table = refl;
  index = refl;
  reserved = (refl, refl);
  ring = (refl, refl);
}

-- If the stubs have addresses of 32 bits, then after `init`, exception `n` and interrupt request `n` lead to
-- their own stubs, for all 32 and all 16 of them, through present 32-bit interrupt gates at the kernel's
-- privilege and code segment; the gates from 48 on are as before.
pub init-LeadsTo :
    (exception_stubs interrupt_stubs : ℕ → ℕ) (idt : Gates)
    → ((n : ℕ) → exception_stubs n < 2 ^ 32)
    → ((n : ℕ) → interrupt_stubs n < 2 ^ 32)
    → let after = (init exception_stubs interrupt_stubs idt).0 in
      ((n : ℕ) → n < 32 → LeadsTo (after n) (exception_stubs n))
      × ((n : ℕ) → n < 16 → LeadsTo (after (32 + n)) (interrupt_stubs n))
      × ((n : ℕ) → 48 ≤ n → after n ≡ idt n)
unfolding init
init-LeadsTo exceptions interrupts idt he hi =
    let first = set_gates exceptions 0 32 0 idt in
    let exception_at : (n : ℕ) → n < 32 → first n ≡ gate_for (exceptions n) = λ n lt.
      subst (λ m. first m ≡ gate_for (exceptions n)) (let e : 0 + n ≡ n = omega arith in e)
        (set_gates-at exceptions 0 32 0 idt n (omega arith) (omega arith)) in
    (
      (λ n lt.
          subst (λ g. LeadsTo g (exceptions n))
            (sym (set_gates-other interrupts 32 16 0 first n (omega arith) ∙ exception_at n lt))
            (gate_for-LeadsTo (exceptions n) (he n))),
      (λ n lt.
          subst (λ g. LeadsTo g (interrupts n))
            (sym (set_gates-at interrupts 32 16 0 first n (omega arith) (omega arith)))
            (gate_for-LeadsTo (interrupts n) (hi n))),
      λ n le.
          set_gates-other interrupts 32 16 0 first n (omega arith)
          ∙ set_gates-other exceptions 0 32 0 idt n (omega arith),
    )
