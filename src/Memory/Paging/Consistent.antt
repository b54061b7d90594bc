-- ===== src/Memory/Paging/Consistent.antt =====
-- The invariant of the kernel's page tables and its bitmaps, and that mapping a page keeps it.
use xyris.Base.{
  ℕ, ◌/◌, ◌%◌, ◌<◌, ◌≡◌, refl, sym, ap, ◌∙◌, arith, Bool, true, false, subst, ◌==◌, if◌then◌else◌,
  Bool-cases, inl, inr, ℕ_discrete, Option, none, some, word,
}
use xyris.Library.Bitset.{test}
use xyris.Library.Bitset.Bits.{length-set_bit}
use xyris.Memory.Paging.{TableEntry, kernel_entry, Paging, new_mapping, map_kernel_page}
use xyris.Memory.Paging.MapPage.{
  entry, AreSized, Maps, new_mapping-Maps, misaligned_panics, map_again, map_new,
}
use xyris.Memory.Physical.Frames.{set_used-IsSized}

-- A page's bit says whether its entry is present, and the frame of a present entry is in use.
pub record IsConsistent (s : Paging) : Type 0 where
  pub sized : AreSized s
  pub tracked : (q : ℕ) → test s.virtual_memory q ≡ (entry s q).present
  pub backed : (q : ℕ) → (entry s q).present ≡ true → test s.physical (entry s q).page_addr ≡ true

Maps-tracked :
    (b x y : Bool) (e : TableEntry) (f : ℕ)
    → x ≡ e.present
    → (if b then true else x) ≡ (if b then kernel_entry f else e).present
Maps-tracked true x y e f h = refl
Maps-tracked false x y e f h = h

module _ {s t : Paging} {v f : ℕ} (m : Maps s v f t) (c : IsConsistent s) where
  keeps_tracked : (q : ℕ) → test t.virtual_memory q ≡ (entry t q).present
  keeps_tracked q =
      m.marked q
      ∙ Maps-tracked (v == q) _ true (entry s q) f (c.tracked q)
      ∙ ap (λ e. e.present) (sym (m.mapped q))

  still_used : (g : ℕ) → test s.physical g ≡ true → test t.physical g ≡ true
  still_used g h = ground (arith, m.used g)

  keeps_backed : (q : ℕ) → (entry t q).present ≡ true → test t.physical (entry t q).page_addr ≡ true
  keeps_backed q = elim (Bool-cases (v == q)) [
    | inl here ↦
        let e : entry t q ≡ kernel_entry f =
          m.mapped q ∙ ap (λ b. if b then kernel_entry f else entry s q) here in
        let g : test t.physical f ≡ true = ground (arith, m.used f) in
        λ p. ap (λ x. test t.physical x.page_addr) e ∙ g
    | inr away ↦
        let e : entry t q ≡ entry s q =
          m.mapped q ∙ ap (λ b. if b then kernel_entry f else entry s q) away in
        λ p.
          ap (λ x. test t.physical x.page_addr) e
          ∙ still_used (entry s q).page_addr (c.backed q (sym (ap (λ x. x.present) e) ∙ p))
  ]

new_mapping-AreSized :
    (s : Paging) (vaddr paddr : ℕ) → AreSized s → AreSized (new_mapping s vaddr paddr)
new_mapping-AreSized s vaddr paddr (sv, sp) =
    (length-set_bit s.virtual_memory _ ∙ sv, set_used-IsSized s.physical paddr sp)

pub new_mapping-IsConsistent :
    (s : Paging) (vaddr paddr : ℕ)
    → IsConsistent s
    → vaddr < word
    → paddr < word
    → IsConsistent (new_mapping s vaddr paddr)
new_mapping-IsConsistent s vaddr paddr c hv hp =
    let m = new_mapping-Maps s vaddr paddr c.sized hv hp in
    record {
      sized = new_mapping-AreSized s vaddr paddr c.sized;
      tracked = keeps_tracked m c;
      backed = keeps_backed m c;
    }

-- A result of which what there is of it is consistent.
abbrev AllConsistent : Option Paging → Type 0
AllConsistent none = Unit {0}
AllConsistent (some t) = IsConsistent t

same_or_panic :
    (s : Paging) (b : Bool) → IsConsistent s → AllConsistent (if b then some s else none)
same_or_panic s true c = c
same_or_panic s false c = tt

-- Mapping a page at a 32-bit address to one keeps the page tables consistent with the bitmaps, whenever
-- it does not panic.
pub map_kernel_page-IsConsistent :
    (s t : Paging) (vaddr paddr : ℕ)
    → IsConsistent s
    → vaddr < word
    → paddr < word
    → map_kernel_page s vaddr paddr ≡ some t
    → IsConsistent t
map_kernel_page-IsConsistent s t vaddr paddr c hv hp e =
    subst AllConsistent e (elim (ℕ_discrete (vaddr % 4096) 0) [
      | no odd ↦ subst AllConsistent (sym (misaligned_panics s vaddr paddr hv odd)) tt
      | yes even ↦ elim (Bool-cases (entry s (vaddr / 4096)).present) [
        | inl there ↦
            subst AllConsistent (sym (map_again s vaddr paddr hv even there)) (same_or_panic s _ c)
        | inr absent ↦
            subst AllConsistent (sym (map_new s vaddr paddr hv even absent))
              (new_mapping-IsConsistent s vaddr paddr c hv hp)
      ]
    ])
