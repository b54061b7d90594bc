-- ===== src/Boot/Stage1/Start.antt =====
-- `stage1Entry` up to the load of the tables: what they map.
use xyris.Base.{
  ℕ, ◌+◌, ◌-◌, ◌*◌, ◌/◌, ◌%◌, ◌^◌, ◌≤◌, ◌<◌, ◌≡◌, ◌≢◌, refl, ap, ◌∙◌, true, false, none, some,
  arith, add_word, ℕ_discrete, dec_lt, List, ◌⊎◌, inl, inr,
}
use xyris.Boot.Stage1.{
  Tables, DirectoryEntry, Layout, Tag, kernel_base, set_directory, map_loop, map_low,
  stage1_map_low_memory, stage1_map_high_memory, stage1_map_bootloader, boot_table,
  stage1_get_boot_info_addr, stage1_entry,
}
use xyris.Boot.Stage1.Loop.{translate, translate-LeadsTo, translate-absent}
use xyris.Boot.Stage1.Maps.{
  IsPlaced, set_directory-here, set_directory-other, high_slot, low-Filled, high-Filled,
}
use xyris.Boot.Stage1.Walk.{IsInfo, Mapped, Stages, boot-Filled, low-entry}
use xyris.Boot.Stage1.Higher.{
  kernel-entry, null-entry, low-directory, kernel-directory, boot-directory,
}

module _ (l : Layout) (h : IsPlaced l) (info length table : ℕ) (i : IsInfo info length)
    (t t1 t2 t2' t3 : Tables) (s : Stages l info length table t t1 t2 t2' t3) where
  translate-low : (a : ℕ) → 4096 ≤ a → a < l.early_kernel_end → translate t3 a ≡ some a
  translate-low a lo hi =
      let fits = h.early_fits in
      let dir : a / 2 ^ 22 ≡ 0 = omega arith in
      let idx : a / 2 ^ 12 % 2 ^ 10 ≡ a / 4096 = omega arith in
      let (p, f) = low-directory l h info length table i t t1 t2 t2' t3 s in
      let entry =
        low-entry l h info length table i t t1 t2 t2' t3 s (a / 4096) (omega arith) (omega arith) in
      translate-LeadsTo t3 a l.low_memory_page_table (a / 4096) (rw dir p) (rw dir f) (rw idx entry)
      ∙ ap some (let e : a / 4096 * 4096 + a % 4096 ≡ a = omega arith in e)

  translate-null : (a : ℕ) → a < 4096 → translate t3 a ≡ none
  translate-null a hi =
      let dir : a / 2 ^ 22 ≡ 0 = omega arith in
      let idx : a / 2 ^ 12 % 2 ^ 10 ≡ 0 = omega arith in
      let (p, f) = low-directory l h info length table i t t1 t2 t2' t3 s in
      translate-absent t3 a l.low_memory_page_table (rw dir f)
        (rw idx (null-entry l h info length table i t t1 t2 t2' t3 s))

  translate-kernel :
      (a : ℕ) → l.kernel_start ≤ a → a < l.kernel_end → translate t3 a ≡ some (a - kernel_base)
  translate-kernel a lo hi =
      let whole = h.whole in
      let above = h.above in
      let last = h.last in
      let (first, second) = kernel-directory l h info length table i t t1 t2 t2' t3 s in
      let entry =
        kernel-entry l h info length table i t t1 t2 t2' t3 s (a / 4096) (omega arith)
          (omega arith) in
      let whole : (a / 4096 - 0xc0000) * 4096 + a % 4096 ≡ a - kernel_base = omega arith in
      elim (dec_lt a (kernel_base + 2 ^ 22)) [
        | yes low ↦
            let dir : a / 2 ^ 22 ≡ 0x300 = omega arith in
            let idx : l.kernel_page_table * 1024 + a / 2 ^ 12 % 2 ^ 10 ≡ high_slot l (a / 4096) =
              omega arith in
            translate-LeadsTo t3 a l.kernel_page_table (a / 4096 - 0xc0000) (rw dir first.0)
              (rw dir first.1) (rw idx entry)
            ∙ ap some whole
        | no high ↦
            let dir : a / 2 ^ 22 ≡ 0x301 = omega arith in
            let idx : (l.kernel_page_table + 1) * 1024 + a / 2 ^ 12 % 2 ^ 10
                ≡ high_slot l (a / 4096) =
              omega arith in
            translate-LeadsTo t3 a (l.kernel_page_table + 1) (a / 4096 - 0xc0000) (rw dir second.0)
              (rw dir second.1) (rw idx entry)
            ∙ ap some whole
      ]

  translate-boot : (a : ℕ) → info ≤ a → a < info + length → translate t3 a ≡ some a
  translate-boot a lo hi =
      let aligned = i.aligned in
      let one = i.one_table in
      let dir : a / 2 ^ 22 ≡ info / 2 ^ 22 = omega arith in
      let idx : a / 2 ^ 12 % 2 ^ 10 ≡ a / 4096 % 1024 = omega arith in
      let (p, f) = boot-directory l h info length table i t t1 t2 t2' t3 s in
      let entry = s.boot.inside (a / 4096) (omega arith) (omega arith) in
      translate-LeadsTo t3 a table (a / 4096) (rw dir p) (rw dir f) (rw idx entry)
      ∙ ap some (let e : a / 4096 * 4096 + a % 4096 ≡ a = omega arith in e)

  stages-Mapped : Mapped l info length t3
  stages-Mapped = record {
    low = translate-low;
    kernel = translate-kernel;
    boot = translate-boot;
    null = translate-null;
  }

-- The table that `stage1MapBootloader` takes, and the tables with it in the directory.
boot_table-present :
    (l : Layout) (t : Tables) (idx : ℕ)
    → (t.directory idx).present ≡ true
    → boot_table l t idx ≡ ((t.directory idx).table_addr, t)
unfolding boot_table
boot_table-present l t idx e = rw e refl

boot_table-absent :
    (l : Layout) (t : Tables) (idx : ℕ)
    → (t.directory idx).present ≡ false
    → boot_table l t idx ≡ (l.boot_page_table, set_directory t idx l.boot_page_table)
unfolding boot_table
boot_table-absent l t idx e = rw e refl

map_bootloader-runs :
    (l : Layout) (info length : ℕ) (tags : List Tag) (n : ℕ) (t t' t'' : Tables) (table : ℕ)
    → boot_table l t (info / 2 ^ 22) ≡ (table, t')
    → stage1_get_boot_info_addr tags ≡ some length
    → map_loop (map_low table) (add_word info length) n info t' ≡ some t''
    → stage1_map_bootloader l info tags n t ≡ some t''
unfolding stage1_map_bootloader
map_bootloader-runs l info length tags n t t' t'' table e f g = rw (e, f) g

entry-runs :
    (l : Layout) (info : ℕ) (tags : List Tag) (n : ℕ) (t t1 t2 t3 : Tables)
    → stage1_map_low_memory l n t ≡ some t1
    → stage1_map_high_memory l n t1 ≡ some t2
    → stage1_map_bootloader l info tags n t2 ≡ some t3
    → stage1_entry l info tags n t ≡ some t3
unfolding stage1_entry
entry-runs l info tags n t t1 t2 t3 e f g = rw (e, f) g

-- From empty tables, with more fuel than the kernel's tables have entries; with tables at distinct frames,
-- stage 1 in the first 4 MB, and a kernel that starts, on any byte, within 4 MB of its base and ends, at
-- the end of a page, within 8 MB of it; and with boot information that starts at a page from the second on,
-- lies below the kernel's base and within the 4 MB of one page table, and whose length the tags give: stage
-- 1 does not panic. Then every address of stage 1 from the second page on, and every one of the boot
-- information, is mapped to itself; every address of the kernel is mapped to the one as far above 0 as it
-- is above the kernel's base; and the first page is not mapped.
pub stage1_entry-Mapped :
    (l : Layout) (info length : ℕ) (tags : List Tag) (n : ℕ) (t : Tables)
    → IsPlaced l
    → IsInfo info length
    → stage1_get_boot_info_addr tags ≡ some length
    → 2048 < n
    → ((d : ℕ) → (t.directory d).present ≡ false)
    → ((m : ℕ) → (t.entries m).present ≡ false)
    → (t' : Tables) × (stage1_entry l info tags n t ≡ some t') × Mapped l info length t'
stage1_entry-Mapped l info length tags n t h i found fuel empty blank =
    let (t1, run1, f1) = low-Filled l h n fuel t in
    let (t2, run2, f2) = high-Filled l h n fuel t1 in
    let below = i.below in
    let some_length = i.some_length in
    let directory : (d : ℕ)
        → d < 0x300
        → t2.directory d ≡ (set_directory t 0 l.low_memory_page_table).directory d =
      λ d lt.
        ap (λ f. f d) f2.directory
        ∙ set_directory-other (set_directory t1 0x300 l.kernel_page_table) 0x301
            (l.kernel_page_table + 1) d (omega arith)
        ∙ set_directory-other t1 0x300 l.kernel_page_table d (omega arith)
        ∙ ap (λ f. f d) f1.directory in
    let finish : (table : ℕ) (t2' : Tables)
        → boot_table l t2 (info / 2 ^ 22) ≡ (table, t2')
        → ((info / 2 ^ 22 ≡ 0) × (table ≡ l.low_memory_page_table) × (t2' ≡ t2))
          ⊎ ((info / 2 ^ 22 ≢ 0)
              × (table ≡ l.boot_page_table)
              × (t2' ≡ set_directory t2 (info / 2 ^ 22) l.boot_page_table))
        → (t' : Tables) × (stage1_entry l info tags n t ≡ some t') × Mapped l info length t' =
      λ table t2' chosen which.
        let (t3, run3, f3) = boot-Filled l h n fuel info length i table t2' in
        (
          t3,
          entry-runs l info tags n t t1 t2 t3 run1 run2
              (map_bootloader-runs l info length tags n t2 t2' t3 table chosen found run3),
          stages-Mapped l h info length table i t t1 t2 t2' t3 (record {
            empty = empty;
            blank = blank;
            low = f1;
            high = f2;
            boot = f3;
            which = which;
          }),
        ) in
    let (here, frame) = set_directory-here t 0 l.low_memory_page_table in
    elim (ℕ_discrete (info / 2 ^ 22) 0) [
      | yes z ↦
          let at : t2.directory (info / 2 ^ 22)
              ≡ (set_directory t 0 l.low_memory_page_table).directory 0 =
            directory (info / 2 ^ 22) (omega arith)
            ∙ ap (set_directory t 0 l.low_memory_page_table).directory z in
          finish (t2.directory (info / 2 ^ 22)).table_addr t2
            (boot_table-present l t2 (info / 2 ^ 22)
              (ap (λ (x : DirectoryEntry). x.present) at ∙ here))
            (inl (
              z,
              ap (λ (x : DirectoryEntry). x.table_addr) at
                  ∙ frame
                  ∙ (let e : l.low_memory_page_table % 2 ^ 20 ≡ l.low_memory_page_table =
                        omega (arith, h.low_frame) in
                      e),
              refl,
            ))
      | no nz ↦
          finish l.boot_page_table (set_directory t2 (info / 2 ^ 22) l.boot_page_table)
            (boot_table-absent l t2 (info / 2 ^ 22) (
              ap (λ (x : DirectoryEntry). x.present)
                (directory (info / 2 ^ 22) (omega arith)
                  ∙ set_directory-other t 0 l.low_memory_page_table (info / 2 ^ 22) nz)
              ∙ empty (info / 2 ^ 22)))
            (inr (nz, refl, refl))
    ]
