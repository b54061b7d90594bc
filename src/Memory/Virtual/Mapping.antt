-- ===== src/Memory/Virtual/Mapping.antt =====
-- What `mapPhysicalToVirtual` does to the translation of every address.
use xyris.Base.{
  ℕ, ◌*◌, ◌/◌, ◌%◌, ◌^◌, ◌<◌, ◌≡◌, ◌≢◌, refl, sym, ◌∙◌, arith, subst, true, false, ◌&&◌, ◌==◌,
  Bool-cases, ◌⊎◌, inl, inr, word, none, some, ==_iff,
}
use xyris.Memory.Paging.{write_entry}
use xyris.Memory.Physical.{Manager, get_page}
use xyris.Memory.Virtual.{
  VirtualManager, map_physical_to_virtual, ensure_table, enter_page, new_table, virtual_to_physical,
  dir_index, table_index, mapped_entry,
}
use xyris.Memory.Virtual.Scan.{present_page}

pub present_page-of :
    (s : VirtualManager) (v : ℕ)
    → v < word
    → present_page s (v / 4096)
      ≡ (s.directory (dir_index v)).present && (s.tables (dir_index v) (table_index v)).present
unfolding present_page
present_page-of s v h =
    let d : v / 4096 / 1024 ≡ dir_index v = omega arith in
    let t : v / 4096 % 1024 ≡ table_index v = omega arith in rw (d, t) refl

-- Two addresses in different pages differ in the directory or in the table.
fields_differ :
    (v u : ℕ)
    → v < word
    → u < word
    → v / 4096 ≢ u / 4096
    → ((dir_index v == dir_index u) && (table_index v == table_index u)) ≡ false
fields_differ v u hv hu ne = ground arith

==_self : (a : ℕ) → (a == a) ≡ true
==_self a = ground arith

-- The physical memory is as before, or one page has been taken from it.
abbrev pub TakesAtMostOne : Manager → Manager → Type 0
TakesAtMostOne m m' = (m' ≡ m) ⊎ ((page : Manager × ℕ) × (get_page m ≡ some page) × (m' ≡ page.0))

-- A table for the directory entry `d`: it is there, and no translation has changed.
record Ensured (s t : VirtualManager) (d : ℕ) : Type 0 where
  pub there : (t.directory d).present ≡ true
  pub same : (v : ℕ) → virtual_to_physical t v ≡ virtual_to_physical s v
  pub absent :
      (k : ℕ)
      → ((s.directory d).present && (s.tables d k).present) ≡ false
      → (t.tables d k).present ≡ false
  pub physical : TakesAtMostOne s.physical t.physical

new_table-Ensured :
    (s : VirtualManager) (d : ℕ) (page : Manager × ℕ)
    → (s.directory d).present ≡ false
    → get_page s.physical ≡ some page
    → Ensured s (new_table s d page) d
unfolding virtual_to_physical
new_table-Ensured s d page e g = record {
  there = ground arith;
  same = λ v. elim (Bool-cases (d == dir_index v)) [
    | inl here ↦
        let same = ==_iff d (dir_index v) in
        let absent : (s.directory (dir_index v)).present ≡ false =
          subst (λ q. (s.directory q).present ≡ false) (same.0 here) e in
        rw (here, absent) refl
    | inr other ↦ rw other refl
  ];
  absent = λ k h. ground arith;
  physical = inr (page, g, refl);
}

ensure_table-Ensured :
    (s : VirtualManager) (d : ℕ)
    → ((s.directory d).present ≡ true) ⊎ ((page : Manager × ℕ) × (get_page s.physical ≡ some page))
    → (t : VirtualManager) × (ensure_table s d ≡ some t) × Ensured s t d
unfolding ensure_table
ensure_table-Ensured s d (inl e) = (
  s,
  rw e refl,
  record { there = e; same = λ v. refl; absent = λ k h. ground arith; physical = inl refl },
)
ensure_table-Ensured s d (inr (page, g)) = elim (Bool-cases (s.directory d).present) [
  | inl e ↦ (
    s,
    rw e refl,
    record { there = e; same = λ v. refl; absent = λ k h. ground arith; physical = inl refl },
  )
  | inr e ↦ (new_table s d page, rw (e, g) refl, new_table-Ensured s d page e g)
]

-- The page of `vaddr` translates to the frame of `paddr`, and every other page as before.
pub record Mapped (s t : VirtualManager) (paddr vaddr : ℕ) : Type 0 where
  pub translated : virtual_to_physical t vaddr ≡ some (paddr / 4096 * 4096)
  pub others :
      (v : ℕ)
      → v < word
      → vaddr / 4096 ≢ v / 4096
      → virtual_to_physical t v ≡ virtual_to_physical s v
  pub physical : TakesAtMostOne s.physical t.physical

enter_page-Mapped :
    (s t : VirtualManager) (paddr vaddr flags : ℕ)
    → paddr < word
    → vaddr < word
    → (t.directory (dir_index vaddr)).present ≡ true
    → (t.tables (dir_index vaddr) (table_index vaddr)).present ≡ false
    → ((v : ℕ) → virtual_to_physical t v ≡ virtual_to_physical s v)
    → TakesAtMostOne s.physical t.physical
    → (u : VirtualManager) × (enter_page t paddr vaddr flags ≡ some u) × Mapped s u paddr vaddr
unfolding enter_page virtual_to_physical
enter_page-Mapped s t paddr vaddr flags hp hv there unused same taken =
    let u : VirtualManager = record t {
      tables =
          write_entry t.tables (dir_index vaddr) (table_index vaddr) (mapped_entry paddr flags);
    } in
    (
      u,
      rw unused refl,
      record {
        translated =
            let low : paddr / 4096 % 2 ^ 20 * 2 ^ 12 % word ≡ paddr / 4096 * 4096 = omega arith in
            rw (==_self (dir_index vaddr), ==_self (table_index vaddr), there, low) refl;
        others = λ v h ne. rw (fields_differ vaddr v hv h ne) (same v);
        physical = taken;
      },
    )

-- If the page of `vaddr` is not mapped, and a page for a new table is there where the directory has
-- none, then `mapPhysicalToVirtual` returns and the page translates to the frame of `paddr`.
pub map_physical_to_virtual-Mapped :
    (s : VirtualManager) (paddr vaddr flags : ℕ)
    → paddr < word
    → vaddr < word
    → present_page s (vaddr / 4096) ≡ false
    → ((s.directory (dir_index vaddr)).present ≡ true)
      ⊎ ((page : Manager × ℕ) × (get_page s.physical ≡ some page))
    → (t : VirtualManager) × (map_physical_to_virtual s paddr vaddr flags ≡ some t)
      × Mapped s t paddr vaddr
unfolding map_physical_to_virtual
map_physical_to_virtual-Mapped s paddr vaddr flags hp hv free supply =
    let t = ensure_table-Ensured s (dir_index vaddr) supply in
    let unused = t.2.absent (table_index vaddr) (sym (present_page-of s vaddr hv) ∙ free) in
    let u =
      enter_page-Mapped s t.0 paddr vaddr flags hp hv t.2.there unused t.2.same t.2.physical in
    (u.0, rw t.1 u.1, u.2)

-- Where the page is mapped, `mapPhysicalToVirtual` panics.
pub map_physical_to_virtual-none :
    (s : VirtualManager) (paddr vaddr flags : ℕ)
    → vaddr < word
    → present_page s (vaddr / 4096) ≡ true
    → map_physical_to_virtual s paddr vaddr flags ≡ none
unfolding map_physical_to_virtual ensure_table enter_page
map_physical_to_virtual-none s paddr vaddr flags hv there =
    let e = sym (present_page-of s vaddr hv) ∙ there in
    let dir : (s.directory (dir_index vaddr)).present ≡ true = ground arith in
    let entry : (s.tables (dir_index vaddr) (table_index vaddr)).present ≡ true = ground arith in
    rw (dir, entry) refl
