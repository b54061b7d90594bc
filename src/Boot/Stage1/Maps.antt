-- ===== src/Boot/Stage1/Maps.antt =====
-- Where the tables of stage 1 lead.
use Prim.Native.Nat.{bit_and, bit_or}
use xyris.Base.{
  ℕ, ◌+◌, ◌-◌, ◌*◌, ◌/◌, ◌%◌, ◌^◌, ◌≤◌, ◌<◌, ◌≡◌, ◌≢◌, refl, subst, true, false, ◌==◌, some, arith,
  sub_word,
}
use xyris.Base.Bits.{bit_and-low_mask}
use xyris.Boot.Stage1.{
  Tables, Layout, kernel_base, set_directory, set_entry, map_loop, map_low, map_high,
  stage1_map_low_memory, stage1_map_high_memory,
}
use xyris.Boot.Stage1.Loop.{Filled, map_loop-Filled}

-- The layout that is taken. The compiler places the tables at distinct frames. As the linker script has
-- it, the kernel starts above the base, at an address that need not begin a page, and ends at the end of
-- a page, since the page tables come last. The script does not make sure of the rest: that stage 1 lies in
-- the first 4 MB, and that the kernel starts within 4 MB and ends within 8 MB of its base, the reach of
-- its two tables.
pub record IsPlaced (l : Layout) : Type 0 where
  pub low_frame : l.low_memory_page_table < 2 ^ 20
  pub kernel_frames : l.kernel_page_table + 1 < 2 ^ 20
  pub boot_frame : l.boot_page_table < 2 ^ 20
  pub low_first : l.low_memory_page_table ≢ l.kernel_page_table
  pub low_second : l.low_memory_page_table ≢ l.kernel_page_table + 1
  pub boot_first : l.boot_page_table ≢ l.kernel_page_table
  pub boot_second : l.boot_page_table ≢ l.kernel_page_table + 1
  pub boot_low : l.boot_page_table ≢ l.low_memory_page_table
  pub early_some : 4096 ≤ l.early_kernel_end
  pub early_fits : l.early_kernel_end ≤ 2 ^ 22
  pub whole : l.kernel_end % 4096 ≡ 0
  pub above : kernel_base ≤ l.kernel_start
  pub first : l.kernel_start < kernel_base + 2 ^ 22
  pub last : l.kernel_end ≤ kernel_base + 2 ^ 23

pub low_index : (q : ℕ) → q < 2 ^ 20 → bit_and q 0x3ff ≡ q % 1024
low_index q h = bit_and-low_mask 10 q (omega arith) (omega arith) (omega arith)

high_index : (q : ℕ) → q < 2 ^ 20 → bit_and q (bit_or 0x400 0x3ff) ≡ q % 2048
high_index q h = bit_and-low_mask 11 q (omega arith) (omega arith) (omega arith)

pub set_directory-here :
    (t : Tables) (idx table : ℕ)
    → (((set_directory t idx table).directory idx).present ≡ true)
      × (((set_directory t idx table).directory idx).table_addr ≡ table % 2 ^ 20)
unfolding set_directory
set_directory-here t idx table = let e : (idx == idx) ≡ true = ground arith in rw e (refl, refl)

pub set_directory-other :
    (t : Tables) (idx table d : ℕ)
    → d ≢ idx
    → (set_directory t idx table).directory d ≡ t.directory d
unfolding set_directory
set_directory-other t idx table d ne = let e : (d == idx) ≡ false = ground arith in rw e refl

pub set_directory-entries :
    (t : Tables) (idx table : ℕ) → (set_directory t idx table).entries ≡ t.entries
unfolding set_directory
set_directory-entries t idx table = refl

-- Where the entry of page `q` stands, and how many pages there are.
abbrev pub low_slot : Layout → ℕ → ℕ
low_slot l q = l.low_memory_page_table * 1024 + q

abbrev pub low_pages : Layout → ℕ
low_pages l = (l.early_kernel_end + 4095) / 4096 - 1

abbrev pub high_slot : Layout → ℕ → ℕ
high_slot l q = l.kernel_page_table * 1024 + (q - 0xc0000)

abbrev pub first_page : Layout → ℕ
first_page l = l.kernel_start / 4096

abbrev pub high_pages : Layout → ℕ
high_pages l = (l.kernel_end + 4095) / 4096 - first_page l

abbrev pub with_kernel : Layout → Tables → Tables
with_kernel l t =
    set_directory (set_directory t 0x300 l.kernel_page_table) 0x301 (l.kernel_page_table + 1)

module _ (l : Layout) (h : IsPlaced l) (n : ℕ) (fuel : 2048 < n) where
  map_low-set :
      (s : Tables) (q : ℕ)
      → q < 1024
      → (set : ℕ) × (map_low l.low_memory_page_table s (q * 4096 + 0)
          ≡ set_entry s (low_slot l q) set)
        × (set % 2 ^ 20 ≡ q)
  unfolding map_low
  map_low-set s q lt =
      let page : (q * 4096 + 0) / 2 ^ 12 ≡ q = omega arith in
      let small : q % 1024 ≡ q = omega arith in
      rw (page, low_index q (omega arith), small) (q, refl, omega arith)

  pub low-Filled :
      (t : Tables)
      → (t' : Tables) × (stage1_map_low_memory l n t ≡ some t')
        × Filled
            (low_slot l)
            (λ q. q)
            1
            (low_pages l)
            (set_directory t 0 l.low_memory_page_table)
            t'
  unfolding stage1_map_low_memory
  low-Filled t =
      let fits = h.early_fits in
      let some_ = h.early_some in
      map_loop-Filled (map_low l.low_memory_page_table) (low_slot l) (λ q. q) 0 l.early_kernel_end
        (low_pages l) n 1 (set_directory t 0 l.low_memory_page_table) (omega arith)
        (λ s q lo hi. map_low-set s q (omega arith)) (λ q r lo lt hi. omega arith) (omega arith)
        (λ pos. omega arith) (omega arith)

  map_high-set :
      (s : Tables) (q : ℕ)
      → 0xc0000 ≤ q
      → q < 0xc0800
      → (set : ℕ) × (map_high l.kernel_page_table s (q * 4096 + l.kernel_start % 4096)
          ≡ set_entry s (high_slot l q) set)
        × (set % 2 ^ 20 ≡ q - 0xc0000)
  unfolding map_high
  map_high-set s q lo hi =
      let page : (q * 4096 + l.kernel_start % 4096) / 2 ^ 12 ≡ q = omega arith in
      let small : q % 2048 ≡ q - 0xc0000 = omega arith in
      rw (page, high_index q (omega arith), small) (sub_word q 0xc0000, refl, omega arith)

  pub high-Filled :
      (t : Tables)
      → (t' : Tables) × (stage1_map_high_memory l n t ≡ some t')
        × Filled (high_slot l) (λ q. q - 0xc0000) (first_page l) (high_pages l) (with_kernel l t) t'
  unfolding stage1_map_high_memory
  high-Filled t =
      let above = h.above in
      let first = h.first in
      let last = h.last in
      let whole = h.whole in
      let idx : l.kernel_start / 2 ^ 22 ≡ 0x300 = omega arith in
      let start : first_page l * 4096 + l.kernel_start % 4096 ≡ l.kernel_start = omega arith in
      rw idx (
        subst
          (λ a.
            (t' : Tables) × (map_loop (map_high l.kernel_page_table) l.kernel_end n a
                (with_kernel l t)
              ≡ some t')
            × Filled (high_slot l) (λ q. q - 0xc0000) (first_page l) (high_pages l)
                (with_kernel l t) t')
          start
          (map_loop-Filled (map_high l.kernel_page_table) (high_slot l) (λ q. q - 0xc0000)
            (l.kernel_start % 4096) l.kernel_end (high_pages l) n (first_page l) (with_kernel l t)
            (omega arith) (λ s q lo hi. map_high-set s q (omega arith) (omega arith))
            (λ q r lo lt hi. omega arith) (omega arith) (λ pos. omega arith) (omega arith)))
