-- ===== src/Boot/Stage1/Walk.antt =====
-- What the processor finds once all of stage 1's tables are filled.
use xyris.Base.{
  ℕ, ◌+◌, ◌-◌, ◌*◌, ◌/◌, ◌%◌, ◌^◌, ◌≤◌, ◌<◌, ◌≡◌, ◌≢◌, refl, sym, ap, subst, ◌∙◌, false, none, some,
  arith, add_word, dec_lt, dec_le, ◌⊎◌, inl, inr,
}
use xyris.Memory.Paging.{TableEntry}
use xyris.Boot.Stage1.{Tables, Layout, kernel_base, set_directory, set_entry, map_loop, map_low}
use xyris.Boot.Stage1.Loop.{translate, LeadsTo, Filled, map_loop-Filled}
use xyris.Boot.Stage1.Maps.{
  IsPlaced, low_index, set_directory-entries, low_slot, high_slot, low_pages, first_page,
  high_pages, with_kernel,
}

-- The boot information stands on whole pages from the second on, below the kernel's base, and within the
-- 4 MB of one page table.
pub record IsInfo (info length : ℕ) : Type 0 where
  pub aligned : info % 4096 ≡ 0
  pub not_first : 4096 ≤ info
  pub some_length : 0 < length
  pub below : info + length ≤ kernel_base
  pub one_table : info % 2 ^ 22 + length ≤ 2 ^ 22

-- The addresses that stage 1 maps, and the first page, which it does not.
pub record Mapped (l : Layout) (info length : ℕ) (t : Tables) : Type 0 where
  pub low : (a : ℕ) → 4096 ≤ a → a < l.early_kernel_end → translate t a ≡ some a
  pub kernel :
      (a : ℕ) → l.kernel_start ≤ a → a < l.kernel_end → translate t a ≡ some (a - kernel_base)
  pub boot : (a : ℕ) → info ≤ a → a < info + length → translate t a ≡ some a
  pub null : (a : ℕ) → a < 4096 → translate t a ≡ none

abbrev pub boot_slot : ℕ → ℕ → ℕ
boot_slot table q = table * 1024 + q % 1024

module _ (l : Layout) (h : IsPlaced l) (n : ℕ) (fuel : 2048 < n) (info length : ℕ)
    (i : IsInfo info length) where
  abbrev boot_pages : ℕ
  boot_pages = (info + length + 4095) / 4096 - info / 4096

  map_boot-set :
      (table : ℕ) (s : Tables) (q : ℕ)
      → q < 2 ^ 20
      → (set : ℕ) × (map_low table s (q * 4096 + 0) ≡ set_entry s (boot_slot table q) set)
        × (set % 2 ^ 20 ≡ q)
  unfolding map_low
  map_boot-set table s q lt =
      let page : (q * 4096 + 0) / 2 ^ 12 ≡ q = omega arith in
      rw (page, low_index q lt) (q, refl, omega arith)

  pub boot-Filled :
      (table : ℕ) (t : Tables)
      → (t' : Tables) × (map_loop (map_low table) (add_word info length) n info t ≡ some t')
        × Filled (boot_slot table) (λ q. q) (info / 4096) boot_pages t t'
  boot-Filled table t =
      let aligned = i.aligned in
      let below = i.below in
      let one = i.one_table in
      let end : add_word info length ≡ info + length = omega arith in
      let start : info / 4096 * 4096 + 0 ≡ info = omega arith in
      rw end (
        subst
          (λ a.
            (t' : Tables) × (map_loop (map_low table) (info + length) n a t ≡ some t')
            × Filled (boot_slot table) (λ q. q) (info / 4096) boot_pages t t')
          start
          (map_loop-Filled (map_low table) (boot_slot table) (λ q. q) 0 (info + length) boot_pages n
            (info / 4096) t (omega arith) (λ s q lo hi. map_boot-set table s q (omega arith))
            (λ q r lo lt hi. omega arith) (omega arith) (λ pos. omega arith) (omega arith)))

-- The tables: `t` at first, `t1` with low memory, `t2` with the kernel, `t2'` with the table `table` for
-- the boot information in the directory, and `t3` with the boot information in it.
pub record Stages (l : Layout) (info length table : ℕ) (t t1 t2 t2' t3 : Tables) : Type 0 where
  pub empty : (d : ℕ) → (t.directory d).present ≡ false
  pub blank : (m : ℕ) → (t.entries m).present ≡ false
  pub low :
      Filled (low_slot l) (λ q. q) 1 (low_pages l) (set_directory t 0 l.low_memory_page_table) t1
  pub high :
      Filled (high_slot l) (λ q. q - 0xc0000) (first_page l) (high_pages l) (with_kernel l t1) t2
  pub boot :
      Filled
        (boot_slot table)
        (λ q. q)
        (info / 4096)
        ((info + length + 4095) / 4096 - info / 4096)
        t2'
        t3
  pub which :
      ((info / 2 ^ 22 ≡ 0) × (table ≡ l.low_memory_page_table) × (t2' ≡ t2))
      ⊎ ((info / 2 ^ 22 ≢ 0)
          × (table ≡ l.boot_page_table)
          × (t2' ≡ set_directory t2 (info / 2 ^ 22) l.boot_page_table))

module _ (l : Layout) (h : IsPlaced l) (info length table : ℕ) (i : IsInfo info length)
    (t t1 t2 t2' t3 : Tables) (s : Stages l info length table t t1 t2 t2' t3) where
  pub boot-other :
      (m : ℕ)
      → ((r : ℕ)
          → info / 4096 ≤ r
          → r < info / 4096 + ((info + length + 4095) / 4096 - info / 4096)
          → m ≢ boot_slot table r)
      → t3.entries m ≡ t2.entries m
  boot-other m out = s.boot.outside m out ∙ (elim s.which [
    | inl (z, e, same) ↦ ap (λ (u : Tables). u.entries m) same
    | inr (z, e, same) ↦
        ap (λ (u : Tables). u.entries m) same
        ∙ ap (λ f. f m) (set_directory-entries t2 (info / 2 ^ 22) l.boot_page_table)
  ])

  pub high-other :
      (m : ℕ)
      → ((r : ℕ) → 0xc0000 ≤ r → r < 0xc0800 → m ≢ high_slot l r)
      → t2.entries m ≡ t1.entries m
  high-other m out =
      let whole = h.whole in
      let above = h.above in
      let last = h.last in
      let first = h.first in
      s.high.outside m (λ r lo hi. out r (omega arith) (omega arith))
      ∙ ap (λ f. f m)
          (set_directory-entries (set_directory t1 0x300 l.kernel_page_table) 0x301
              (l.kernel_page_table + 1)
            ∙ set_directory-entries t1 0x300 l.kernel_page_table)

  pub low-entry : (q : ℕ) → 1 ≤ q → q < 1 + low_pages l → LeadsTo (t3.entries (low_slot l q)) q
  low-entry q lo hi =
      let early = h.early_fits in
      let fi = h.low_first in
      let se = h.low_second in
      let bl = h.boot_low in
      let one = i.one_table in
      let below = high-other (low_slot l q) (λ r a b. omega arith) in
      let direct : t3.entries (low_slot l q) ≡ t2.entries (low_slot l q)
          → LeadsTo (t3.entries (low_slot l q)) q =
        λ e. subst (λ (u : TableEntry). LeadsTo u q) (sym (e ∙ below)) (s.low.inside q lo hi) in
      elim s.which [
        | inr (z, e, same) ↦ direct (boot-other (low_slot l q) (λ r a b. omega arith))
        | inl (z, e, same) ↦ elim (dec_le (info / 4096) q) [
          | no before ↦ direct (boot-other (low_slot l q) (λ r a b. omega arith))
          | yes from ↦
              elim (dec_lt q (info / 4096 + ((info + length + 4095) / 4096 - info / 4096))) [
                | no after ↦ direct (boot-other (low_slot l q) (λ r a b. omega arith))
                | yes within ↦
                    let here : boot_slot table q ≡ low_slot l q = omega arith in
                    subst (λ m. LeadsTo (t3.entries m) q) here (s.boot.inside q from within)
              ]
        ]
      ]
