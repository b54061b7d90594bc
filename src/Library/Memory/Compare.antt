-- ===== src/Library/Memory/Compare.antt =====
-- What the result of `memcmp` says.
use xyris.Base.{
  ℕ, zero, suc, ◌+◌, ◌≤◌, ◌<◌, ◌≡◌, ◌≢◌, inl, inr, refl, ap, arith, true, ltb, Bool-cases,
  ℕ_discrete, ltb→lt,
}
use xyris.Library.Memory.{Bytes, Order, below, above, same, memcmp_from, memcmp, is_zero}

-- The areas differ first at byte `k`.
abbrev pub DifferAt : Bytes → ℕ → ℕ → ℕ → ℕ → Type 0
DifferAt m a b i k = (i ≤ k) × ((j : ℕ) → i ≤ j → j < k → m (a + j) ≡ m (b + j))

-- The result gives the position of the first difference and its direction, or that there is none.
abbrev pub Compares : Bytes → ℕ → ℕ → ℕ → ℕ → Order → Type 0
Compares m a b i end (below k) = (k < end) × (m (a + k) < m (b + k)) × DifferAt m a b i k
Compares m a b i end (above k) = (k < end) × (m (b + k) < m (a + k)) × DifferAt m a b i k
Compares m a b i end same = (j : ℕ) → i ≤ j → j < end → m (a + j) ≡ m (b + j)

DifferAt-extend :
    (m : Bytes) (a b i k : ℕ)
    → m (a + i) ≡ m (b + i)
    → DifferAt m a b (i + 1) k
    → DifferAt m a b i k
DifferAt-extend m a b i k e (le, before) =
    (omega arith, λ j lo hi. equal_from m a b i k e before j lo hi)
  where
    equal_from :
        (m : Bytes) (a b i k : ℕ)
        → m (a + i) ≡ m (b + i)
        → ((j : ℕ) → i + 1 ≤ j → j < k → m (a + j) ≡ m (b + j))
        → (j : ℕ) → i ≤ j
        → j < k
        → m (a + j) ≡ m (b + j)
    equal_from m a b i k e before j lo hi = elim (ℕ_discrete i j) [
      | yes at ↦ rw (← at) e
      | no past ↦ before j (omega arith) hi
    ]

Compares-extend :
    (m : Bytes) (a b i end : ℕ) (o : Order)
    → m (a + i) ≡ m (b + i)
    → Compares m a b (i + 1) end o
    → Compares m a b i end o
Compares-extend m a b i end (below k) e (lt, d, before) =
    (lt, d, DifferAt-extend m a b i k e before)
Compares-extend m a b i end (above k) e (lt, d, before) =
    (lt, d, DifferAt-extend m a b i k e before)
Compares-extend m a b i end same e all =
    λ j lo hi. elim (ℕ_discrete i j) [ yes at ↦ rw (← at) e | no past ↦ all j (omega arith) hi ]

memcmp_from-Compares :
    (n : ℕ) (m : Bytes) (a b i end : ℕ) → i + n ≡ end → Compares m a b i end (memcmp_from n m a b i)
unfolding memcmp_from
memcmp_from-Compares zero m a b i end h = λ j lo hi. absurd (omega arith)
memcmp_from-Compares (suc n) m a b i end h = elim (Bool-cases (ltb (m (a + i)) (m (b + i)))) [
  | inl lt ↦ rw lt (omega arith, ltb→lt _ _ lt, (omega arith, λ j lo hi. absurd (omega arith)))
  | inr ge ↦ elim (Bool-cases (ltb (m (b + i)) (m (a + i)))) [
    | inl gt ↦
        rw (ge, gt) (omega arith, ltb→lt _ _ gt, (omega arith, λ j lo hi. absurd (omega arith)))
    | inr le ↦
        let e : m (a + i) ≡ m (b + i) = ground arith in
        rw (ge, le)
          (Compares-extend m a b i end (memcmp_from n m a b (i + 1)) e
            (memcmp_from-Compares n m a b (i + 1) end (omega arith)))
  ]
]

-- `memcmp` returns plus or minus the position of the first byte where the areas differ, minus where
-- the first area's byte is lower, and 0 where there is no such byte.
pub memcmp-Compares : (m : Bytes) (a b num : ℕ) → Compares m a b 0 num (memcmp m a b num)
unfolding memcmp
memcmp-Compares m a b num = memcmp_from-Compares num m a b 0 num (omega arith)

-- Areas that differ in their first byte compare as equal: the position of the difference is 0.
pub memcmp-first_byte : (m : Bytes) (a b num : ℕ) → m a ≢ m b → is_zero (memcmp m a b num) ≡ true
unfolding memcmp memcmp_from
memcmp-first_byte m a b zero ne = refl
memcmp-first_byte m a b (suc n) ne = elim (Bool-cases (ltb (m (a + 0)) (m (b + 0)))) [
  | inl lt ↦ rw lt refl
  | inr ge ↦
      let gt : ltb (m (b + 0)) (m (a + 0)) ≡ true = ground (
        arith,
        ne,
        (let r : a + 0 ≡ a = omega arith in ap m r),
        (let r : b + 0 ≡ b = omega arith in ap m r),
      ) in
      rw (ge, gt) refl
]
