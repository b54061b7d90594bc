-- ===== src/Memory/Paging/Bounds.antt =====
-- Which addresses `newPage` can return.
use xyris.Base.{
  ℕ, zero, suc, ◌+◌, ◌*◌, ◌%◌, ◌^◌, ◌≤◌, ◌≡◌, refl, ◌⊎◌, inl, inr, Option, none, some, arith, ◌==◌,
  Bool-cases, size_max, word,
}
use xyris.Memory.Physical.{find_next_free_physical_address}
use xyris.Memory.Address.{arch_page_size, page_count}
use xyris.Memory.Paging.{
  Paging, Outcome, returned, panicked, map_pages, next_round, new_page,
  find_next_free_virtual_address,
}

abbrev pub page_of : Outcome → ℕ
page_of panicked = 0
page_of (returned p page) = page

abbrev Either : ℕ → Outcome → Type 0
Either addr o = (page_of o ≡ 0) ⊎ (page_of o ≡ addr)

next_round-Either :
    (addr : ℕ) (rest : Paging → Outcome) (o : Option Paging)
    → ((s : Paging) → Either addr (rest s))
    → Either addr (next_round rest o)
next_round-Either addr rest none h = inl refl
next_round-Either addr rest (some s) h = h s

map_pages-Either : (n addr : ℕ) (s : Paging) (i : ℕ) → Either addr (map_pages n addr s i)
unfolding map_pages
map_pages-Either zero addr s i = inr refl
map_pages-Either (suc n) addr s i =
    elim (Bool-cases (find_next_free_physical_address s.physical == size_max)) [
      | inl e ↦ rw e (inl refl)
      | inr e ↦ rw e (
          next_round-Either addr (λ t. map_pages n addr t (i + 1)) _
            (λ t. map_pages-Either n addr t (i + 1)))
    ]

-- The page of an address that `newPage` returns lies in the 32-bit address space.
pub new_page-fits :
    (beyond size : ℕ) (s : Paging) → page_of (new_page beyond s size) + 4096 ≤ 2 ^ 32
unfolding new_page
new_page-fits beyond size s =
    let idx = find_next_free_virtual_address beyond s (page_count size) in
    elim (Bool-cases (idx == size_max)) [
      | inl e ↦ rw e (omega arith)
      | inr e ↦
          rw e (elim (map_pages-Either (page_count size) (idx * arch_page_size % word) s idx) [
            | inl z ↦ omega arith
            | inr a ↦ omega arith
          ])
    ]
