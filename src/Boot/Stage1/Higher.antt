-- ===== src/Boot/Stage1/Higher.antt =====
-- Stage 1 maps what the kernel needs.
use xyris.Base.{
  ℕ, ◌+◌, ◌-◌, ◌/◌, ◌%◌, ◌^◌, ◌≤◌, ◌<◌, ◌≡◌, ◌≢◌, sym, ap, subst, ◌∙◌, true, false, arith, ◌⊎◌, inl,
  inr,
}
use xyris.Memory.Paging.{TableEntry}
use xyris.Boot.Stage1.{Tables, DirectoryEntry, Layout, set_directory}
use xyris.Boot.Stage1.Loop.{LeadsTo}
use xyris.Boot.Stage1.Maps.{
  IsPlaced, set_directory-here, set_directory-other, set_directory-entries, low_slot, high_slot,
  first_page, high_pages, with_kernel,
}
use xyris.Boot.Stage1.Walk.{IsInfo, Stages, boot-other, high-other}

module _ (l : Layout) (h : IsPlaced l) (info length table : ℕ) (i : IsInfo info length)
    (t t1 t2 t2' t3 : Tables) (s : Stages l info length table t t1 t2 t2' t3) where
  pub kernel-entry :
      (q : ℕ)
      → first_page l ≤ q
      → q < first_page l + high_pages l
      → LeadsTo (t3.entries (high_slot l q)) (q - 0xc0000)
  kernel-entry q lo hi =
      let whole = h.whole in
      let above = h.above in
      let last = h.last in
      let first = h.first in
      let fi = h.low_first in
      let se = h.low_second in
      let bf = h.boot_first in
      let bs = h.boot_second in
      let other : t3.entries (high_slot l q) ≡ t2.entries (high_slot l q) =
        boot-other l h info length table i t t1 t2 t2' t3 s (high_slot l q) (λ r a b. elim s.which [
          | inl (z, e, same) ↦ omega arith
          | inr (z, e, same) ↦ omega arith
        ]) in
      subst (λ (u : TableEntry). LeadsTo u (q - 0xc0000)) (sym other) (s.high.inside q lo hi)

  pub null-entry : (t3.entries (low_slot l 0)).present ≡ false
  null-entry =
      let fi = h.low_first in
      let se = h.low_second in
      let bl = h.boot_low in
      let one = i.one_table in
      let later = i.not_first in
      let boot : t3.entries (low_slot l 0) ≡ t2.entries (low_slot l 0) =
        boot-other l h info length table i t t1 t2 t2' t3 s (low_slot l 0) (λ r a b. elim s.which [
          | inl (z, e, same) ↦ omega arith
          | inr (z, e, same) ↦ omega arith
        ]) in
      let high =
        high-other l h info length table i t t1 t2 t2' t3 s (low_slot l 0) (λ r a b. omega arith) in
      let low = s.low.outside (low_slot l 0) (λ r a b. omega arith) in
      ap (λ (u : TableEntry). u.present)
        (boot
          ∙ high
          ∙ low
          ∙ ap (λ f. f (low_slot l 0)) (set_directory-entries t 0 l.low_memory_page_table))
      ∙ s.blank (low_slot l 0)

  -- The directory's entry `d` is present and has the table.
  abbrev pub HasTable : Tables → ℕ → ℕ → Type 0
  HasTable u d frame = ((u.directory d).present ≡ true) × ((u.directory d).table_addr ≡ frame)

  HasTable-same :
      (u v : Tables) (d frame : ℕ)
      → v.directory d ≡ u.directory d
      → HasTable u d frame
      → HasTable v d frame
  HasTable-same u v d frame e (p, a) = (
    ap (λ (x : DirectoryEntry). x.present) e ∙ p,
    ap (λ (x : DirectoryEntry). x.table_addr) e ∙ a,
  )

  directory-final : (d : ℕ) → d ≢ info / 2 ^ 22 ⊎ (t2' ≡ t2) → t3.directory d ≡ t2.directory d
  directory-final d out = ap (λ f. f d) s.boot.directory ∙ (elim out [
    | inr same ↦ ap (λ (u : Tables). u.directory d) same
    | inl ne ↦ elim s.which [
      | inl (z, e, same) ↦ ap (λ (u : Tables). u.directory d) same
      | inr (z, e, same) ↦
          ap (λ (u : Tables). u.directory d) same
          ∙ set_directory-other t2 (info / 2 ^ 22) l.boot_page_table d ne
    ]
  ])

  pub low-directory : HasTable t3 0 l.low_memory_page_table
  low-directory =
      let frame : l.low_memory_page_table % 2 ^ 20 ≡ l.low_memory_page_table =
        omega (arith, h.low_frame) in
      let (p, a) = set_directory-here t 0 l.low_memory_page_table in
      let untouched : (0 ≢ info / 2 ^ 22) ⊎ (t2' ≡ t2) = elim s.which [
        | inl (z, e, same) ↦ inr same
        | inr (z, e, same) ↦ inl (λ q. z (sym q))
      ] in
      HasTable-same (set_directory t 0 l.low_memory_page_table) t3 0 l.low_memory_page_table
        (directory-final 0 untouched
          ∙ ap (λ f. f 0) s.high.directory
          ∙ set_directory-other (set_directory t1 0x300 l.kernel_page_table) 0x301
              (l.kernel_page_table + 1) 0 (omega arith)
          ∙ set_directory-other t1 0x300 l.kernel_page_table 0 (omega arith)
          ∙ ap (λ f. f 0) s.low.directory)
        (p, a ∙ frame)

  pub kernel-directory :
      HasTable t3 0x300 l.kernel_page_table × HasTable t3 0x301 (l.kernel_page_table + 1)
  kernel-directory =
      let below = i.below in
      let some_length = i.some_length in
      let frame : l.kernel_page_table % 2 ^ 20 ≡ l.kernel_page_table =
        omega (arith, h.kernel_frames) in
      let next : (l.kernel_page_table + 1) % 2 ^ 20 ≡ l.kernel_page_table + 1 =
        omega (arith, h.kernel_frames) in
      let (p, a) = set_directory-here t1 0x300 l.kernel_page_table in
      let (q, b) =
        set_directory-here (set_directory t1 0x300 l.kernel_page_table) 0x301
          (l.kernel_page_table + 1) in
      (
        HasTable-same (set_directory t1 0x300 l.kernel_page_table) t3 0x300 l.kernel_page_table
            (directory-final 0x300 (inl (omega arith))
              ∙ ap (λ f. f 0x300) s.high.directory
              ∙ set_directory-other (set_directory t1 0x300 l.kernel_page_table) 0x301
                  (l.kernel_page_table + 1) 0x300 (omega arith))
            (p, a ∙ frame),
        HasTable-same (with_kernel l t1) t3 0x301 (l.kernel_page_table + 1)
            (directory-final 0x301 (inl (omega arith)) ∙ ap (λ f. f 0x301) s.high.directory)
            (q, b ∙ next),
      )

  pub boot-directory : HasTable t3 (info / 2 ^ 22) table
  boot-directory = elim s.which [
    | inl (z, e, same) ↦
        subst (λ d. HasTable t3 d table) (sym z) (subst (HasTable t3 0) (sym e) low-directory)
    | inr (z, e, same) ↦
        let frame : l.boot_page_table % 2 ^ 20 ≡ l.boot_page_table = omega (arith, h.boot_frame) in
        let (p, a) = set_directory-here t2 (info / 2 ^ 22) l.boot_page_table in
        HasTable-same (set_directory t2 (info / 2 ^ 22) l.boot_page_table) t3 (info / 2 ^ 22) table
          (ap (λ f. f (info / 2 ^ 22)) s.boot.directory
            ∙ ap (λ (u : Tables). u.directory (info / 2 ^ 22)) same)
          (p, a ∙ frame ∙ sym e)
  ]
