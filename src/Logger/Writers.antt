-- ===== src/Logger/Writers.antt =====
-- Which writers a message reaches after writers were added and removed.
use xyris.Base.{
  ℕ, zero, suc, ◌+◌, ◌<◌, ◌≡◌, ◌≢◌, refl, ap, arith, false, ◌==◌, ltb, if◌then◌else◌, Bool-cases,
  inl, inr, List, [], ◌∷◌, ◌++◌, set, take, length,
}
use xyris.Logger.{
  Logger, called, log_helper_print, add_writer, remove_loop, remove_writer, max_writer_count,
}

called-set :
    (ws : List ℕ) (n w : ℕ)
    → n < length ws
    → w ≢ 0
    → called (take (suc n) (set ws n w)) ≡ called (take n ws) ++ w ∷ []
called-set [] n w h ne = absurd (omega arith)
called-set (x ∷ ws) zero w h ne = let e : (w == 0) ≡ false = ground (arith, ne) in rw e refl
called-set (x ∷ ws) (suc n) w h ne = elim (Bool-cases (x == 0)) [
  | inl null ↦ rw null (called-set ws n w (omega arith) ne)
  | inr some_x ↦ rw some_x (ap (λ r. x ∷ r) (called-set ws n w (omega arith) ne))
]

-- The list without the first `w` in it.
abbrev pub without_first : ℕ → List ℕ → List ℕ
without_first w [] = []
without_first w (x ∷ xs) = if x == w then xs else x ∷ without_first w xs

called-remove_loop :
    (n : ℕ) (ws : List ℕ) (w : ℕ)
    → w ≢ 0
    → called (take n (remove_loop n ws w).0) ≡ without_first w (called (take n ws))
called-remove_loop zero ws w ne = refl
called-remove_loop (suc n) [] w ne = refl
called-remove_loop (suc n) (x ∷ ws) w ne = elim (Bool-cases (x == w)) [
  | inl same ↦ let there : (x == 0) ≡ false = ground (arith, ne) in rw (same, there, same) refl
  | inr other ↦ elim (Bool-cases (x == 0)) [
    | inl null ↦ rw (other, null) (called-remove_loop n ws w ne)
    | inr there ↦ rw (other, there, other) (ap (λ r. x ∷ r) (called-remove_loop n ws w ne))
  ]
]

-- A logger with the array's two slots.
abbrev pub HasSlots : Logger → Type 0
HasSlots l = length l.writers ≡ max_writer_count

-- For a writer that is not null and an array of two slots: while a slot is left, `addWriter` adds the
-- writer behind those that messages reach; afterwards they are the same, and its result says which.
pub add_writer-reaches :
    (l : Logger) (w : ℕ)
    → HasSlots l
    → w ≢ 0
    → ((add_writer l w).1 ≡ ltb l.writers_idx 2)
      × (log_helper_print (add_writer l w).0
          ≡ (if ltb l.writers_idx 2 then log_helper_print l ++ w ∷ [] else log_helper_print l))
unfolding add_writer log_helper_print
add_writer-reaches l w slots ne = elim (Bool-cases (ltb l.writers_idx 2)) [
  | inl room ↦
      let next : l.writers_idx + 1 ≡ suc l.writers_idx = omega arith in
      rw (room, next) (refl, called-set l.writers l.writers_idx w (ground (arith, slots)) ne)
  | inr full ↦ rw full (refl, refl)
]

-- After `removeWriter` of a writer that is not null a message reaches the writers that it reached before without the first entry of
-- the writer; but the slot is not given back: a logger whose slots were used takes no further writer.
pub remove_writer-reaches :
    (l : Logger) (w v : ℕ)
    → w ≢ 0
    → (log_helper_print (remove_writer l w).0 ≡ without_first w (log_helper_print l))
      × ((add_writer (remove_writer l w).0 v).1 ≡ ltb l.writers_idx 2)
unfolding remove_writer add_writer log_helper_print
remove_writer-reaches l w v ne = elim (Bool-cases (ltb l.writers_idx 2)) [
  | inl room ↦ (called-remove_loop l.writers_idx l.writers w ne, rw room refl)
  | inr full ↦ (called-remove_loop l.writers_idx l.writers w ne, rw full refl)
]
