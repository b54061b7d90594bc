-- ===== src/Applications/Primes/Marks.antt =====
-- What one number of the sieve clears.
use xyris.Base.{
  ℕ, zero, suc, ◌+◌, ◌*◌, ◌<◌, ◌≤◌, ◌≡◌, refl, sym, ◌∙◌, ap, arith, ◌⊎◌, inl, inr, true, false, ltb,
  ltb→lt, ◌==◌, if◌then◌else◌, Bool-cases, some, word, add_word, length, ℕ_discrete,
}
use xyris.Library.Bitset.{Bitset, clear, test}
use xyris.Library.Bitset.Bits.{test-clear, length-clear}
use xyris.Applications.Primes.{clear_multiples}

-- The bitset has a bit for each number below `max`.
abbrev pub Covers : Bitset → ℕ → Type 0
Covers map max = max ≤ 32 * length map.words

-- `after` is `before` with the numbers `j`, `j + prime`, `j + 2 * prime`, ... cleared.
pub record ClearsFrom (before after : Bitset) (max prime j : ℕ) : Type 0 where
  pub covers : Covers after max
  pub hit : (m : ℕ) → j + m * prime < max → test after (j + m * prime) ≡ false
  pub old : (i : ℕ) → test before i ≡ false → test after i ≡ false
  pub only :
      (i : ℕ) → test after i ≡ false → (test before i ≡ false) ⊎ ((m : ℕ) × (i ≡ j + m * prime))

multiple_next : (j k prime : ℕ) → j + suc k * prime ≡ j + prime + k * prime
multiple_next j k prime = grind arith

clear_step :
    (n max : ℕ) (map : Bitset) (prime j : ℕ) (after : Bitset)
    → ltb j max ≡ true
    → add_word j prime ≡ j + prime
    → clear_multiples n max (clear map j) prime (j + prime) ≡ some after
    → clear_multiples (suc n) max map prime j ≡ some after
unfolding clear_multiples
clear_step n max map prime j after more next e = rw (more, next) e

ClearsFrom-step :
    (map after : Bitset) (max prime j : ℕ)
    → j < max
    → Covers map max
    → ClearsFrom (clear map j) after max prime (j + prime)
    → ClearsFrom map after max prime j
ClearsFrom-step map after max prime j lt cov h =
    let at : (i : ℕ) → test (clear map j) i ≡ (if j == i then false else test map i) =
      λ i. test-clear map j i (omega arith) in
    record {
      covers = h.covers;
      hit = λ m. elim m as (λ m. j + m * prime < max → test after (j + m * prime) ≡ false) [
        | zero ↦ λ b.
            let here : j + 0 * prime ≡ j = omega arith in
            let a = at j in ap (test after) here ∙ h.old j (ground arith)
        | suc k ↦ λ b.
            let next = multiple_next j k prime in
            ap (test after) next ∙ h.hit k (omega (arith, next))
      ];
      old = λ i e. h.old i (let a = at i in ground arith);
      only = λ i e. elim (h.only i e) [
        | inr (m, same) ↦ inr (suc m, same ∙ sym (multiple_next j m prime))
        | inl before ↦ elim (ℕ_discrete j i) [
          | yes same ↦ inr (0, sym same ∙ (omega arith))
          | no other ↦ inl (let a = at i in ground arith)
        ]
      ];
    }

ClearsFrom-none :
    (map : Bitset) (max prime j : ℕ) → max ≤ j → Covers map max → ClearsFrom map map max prime j
ClearsFrom-none map max prime j done cov = record {
  covers = cov;
  hit = λ m b. absurd (omega arith);
  old = λ i e. e;
  only = λ i e. inl e;
}

-- With enough rounds the inner loop ends, and it clears the multiples of `prime` from `j` on.
pub clear_multiples-ClearsFrom :
    (n max : ℕ) (map : Bitset) (prime j : ℕ)
    → 0 < prime
    → max ≤ j + n
    → max + prime < word
    → Covers map max
    → (after : Bitset) × (clear_multiples n max map prime j ≡ some after)
      × ClearsFrom map after max prime j
unfolding clear_multiples
clear_multiples-ClearsFrom zero max map prime j pos rounds small cov =
    (map, ground arith, ClearsFrom-none map max prime j (omega arith) cov)
clear_multiples-ClearsFrom (suc n) max map prime j pos rounds small cov =
    elim (Bool-cases (ltb j max)) [
      | inr over ↦
          let done : max ≤ j = ground arith in
          (map, rw over refl, ClearsFrom-none map max prime j done cov)
      | inl more ↦
          let lt = ltb→lt j max more in
          let next : add_word j prime ≡ j + prime = omega arith in
          let cov' : Covers (clear map j) max = omega (arith, length-clear map j) in
          let (after, e, h) =
            clear_multiples-ClearsFrom n max (clear map j) prime (j + prime) pos (omega arith) small
              cov' in
          (
            after,
            clear_step n max map prime j after more next e,
            ClearsFrom-step map after max prime j lt cov h,
          )
    ]
