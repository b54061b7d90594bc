-- ===== src/Memory/Paging/MapPage.antt =====
-- What `mapKernelPage` does on each of its branches.
use xyris.Base.{
  ℕ, ◌/◌, ◌%◌, ◌^◌, ◌<◌, ◌≡◌, ◌≢◌, refl, ap, ap₂, ◌∙◌, arith, true, false, ◌&&◌, ◌==◌,
  if◌then◌else◌, Bool-cases, ◌⊎◌, inl, inr, ℕ_discrete, Option, none, some, word,
}
use xyris.Library.Bitset.{test}
use xyris.Library.Bitset.Bits.{test-set_bit}
use xyris.Memory.Address.{page_addr, virtual_address}
use xyris.Memory.Paging.{TableEntry, kernel_entry, Paging, new_mapping, map_kernel_page}
use xyris.Memory.Physical.Frames.{IsSized, test-set_used}

-- The entry of the page with index `q`.
abbrev pub entry : Paging → ℕ → TableEntry
entry s q = s.tables (q / 1024) (q % 1024)

-- Both bitmaps have their size.
abbrev pub AreSized : Paging → Type 0
AreSized s = IsSized s.virtual_memory × IsSized s.physical

-- `t` is `s` with page `v` mapped to frame `f`: its entry is a kernel entry for the frame, its bit and
-- the frame's bit are set, and every other entry and bit is as it was.
pub record Maps (s : Paging) (v f : ℕ) (t : Paging) : Type 0 where
  pub mapped : (q : ℕ) → entry t q ≡ (if v == q then kernel_entry f else entry s q)
  pub marked :
      (q : ℕ) → test t.virtual_memory q ≡ (if v == q then true else test s.virtual_memory q)
  pub used : (q : ℕ) → test t.physical q ≡ (if f == q then true else test s.physical q)

same_page :
    (vaddr q : ℕ)
    → vaddr < word
    → (((vaddr / 2 ^ 22 % 2 ^ 10) == (q / 1024)) && ((vaddr / 2 ^ 12 % 2 ^ 10) == (q % 1024)))
      ≡ ((vaddr / 4096) == q)
same_page vaddr q h = ground arith

pub new_mapping-Maps :
    (s : Paging) (vaddr paddr : ℕ)
    → AreSized s
    → vaddr < word
    → paddr < word
    → Maps s (vaddr / 4096) (paddr / 4096) (new_mapping s vaddr paddr)
new_mapping-Maps s vaddr paddr (sv, sp) hv hp =
    let v : page_addr vaddr ≡ vaddr / 4096 = omega arith in
    let p : page_addr paddr ≡ paddr / 4096 = omega arith in
    record {
      mapped = λ q. rw (same_page vaddr q hv, p) refl;
      marked = λ q. rw v (test-set_bit s.virtual_memory (vaddr / 4096) q (omega (arith, sv)));
      used = λ q. test-set_used s.physical paddr q sp hp;
    }

module _ (s : Paging) (vaddr paddr : ℕ) (hv : vaddr < word) where
  entry_of : s.tables (vaddr / 2 ^ 22 % 2 ^ 10) (vaddr / 2 ^ 12 % 2 ^ 10) ≡ entry s (vaddr / 4096)
  entry_of = ap₂ s.tables (omega arith) (omega arith)

  pub misaligned_panics : vaddr % 4096 ≢ 0 → map_kernel_page s vaddr paddr ≡ none
  unfolding map_kernel_page virtual_address
  misaligned_panics h = let e : ((vaddr % 2 ^ 12) == 0) ≡ false = ground arith in rw e refl

  module _ (aligned : vaddr % 4096 ≡ 0) where
    pub map_new :
        (entry s (vaddr / 4096)).present ≡ false
        → map_kernel_page s vaddr paddr ≡ some (new_mapping s vaddr paddr)
    unfolding map_kernel_page virtual_address
    map_new h =
        let e : ((vaddr % 2 ^ 12) == 0) ≡ true = ground arith in
        rw (e, ap (λ x. x.present) entry_of, h) refl

    pub map_again :
        (entry s (vaddr / 4096)).present ≡ true
        → map_kernel_page s vaddr paddr
          ≡ (if (entry s (vaddr / 4096)).page_addr == page_addr paddr then some s else none)
    unfolding map_kernel_page virtual_address
    map_again h =
        let e : ((vaddr % 2 ^ 12) == 0) ≡ true = ground arith in
        rw (e, ap (λ x. x.present) entry_of, ap (λ x. x.page_addr) entry_of, h) refl

-- The four outcomes of mapping page `v` to frame `f`, where `here` is the page's entry.
abbrev pub MapStep : Paging → ℕ → ℕ → TableEntry → Option Paging → Type 0
MapStep s vaddr f here r =
    ((vaddr % 4096 ≢ 0) × (r ≡ none))
    ⊎ ((vaddr % 4096 ≡ 0) × (here.present ≡ true) × (here.page_addr ≡ f) × (r ≡ some s))
    ⊎ ((vaddr % 4096 ≡ 0) × (here.present ≡ true) × (here.page_addr ≢ f) × (r ≡ none))
    ⊎ ((vaddr % 4096 ≡ 0)
        × (here.present ≡ false)
        × ((t : Paging) × (r ≡ some t) × Maps s (vaddr / 4096) f t))

-- With bitmaps of their full size and 32-bit addresses, `mapKernelPage` panics for an address that is not page aligned and for a page that is mapped to
-- another frame; it changes nothing for a page that is mapped to the same frame; and it maps a page
-- that is not present to the frame, marks page and frame, and changes no other entry or bit.
pub map_kernel_page-MapStep :
    (s : Paging) (vaddr paddr : ℕ)
    → AreSized s
    → vaddr < word
    → paddr < word
    → MapStep s vaddr (paddr / 4096) (entry s (vaddr / 4096)) (map_kernel_page s vaddr paddr)
map_kernel_page-MapStep s vaddr paddr sized hv hp =
    let f : page_addr paddr ≡ paddr / 4096 = omega arith in
    let here = entry s (vaddr / 4096) in
    elim (ℕ_discrete (vaddr % 4096) 0) [
      | no odd ↦ inl (odd, misaligned_panics s vaddr paddr hv odd)
      | yes even ↦ elim (Bool-cases (entry s (vaddr / 4096)).present) [
        | inr absent ↦ inr (
            inr (
              inr (
                even,
                absent,
                (
                  new_mapping s vaddr paddr,
                  map_new s vaddr paddr hv even absent,
                  new_mapping-Maps s vaddr paddr sized hv hp,
                ),
              )))
        | inl there ↦ elim (ℕ_discrete (entry s (vaddr / 4096)).page_addr (paddr / 4096)) [
          | yes same ↦
              let e : (here.page_addr == page_addr paddr) ≡ true = ground (arith, same, f) in
              inr (
                inl (
                  even,
                  there,
                  same,
                  map_again s vaddr paddr hv even there ∙ ap (λ b. if b then some s else none) e,
                ))
          | no other ↦
              let e : (here.page_addr == page_addr paddr) ≡ false = ground (arith, other, f) in
              inr (
                inr (
                  inl (
                    even,
                    there,
                    other,
                    map_again s vaddr paddr hv even there ∙ ap (λ b. if b then some s else none) e,
                  )))
        ]
      ]
    ]
