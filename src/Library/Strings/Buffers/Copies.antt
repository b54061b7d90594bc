-- ===== src/Library/Strings/Buffers/Copies.antt =====
-- What `strlen`, `strcpy`, `strncpy` and `strcat` do with strings in memory.
use xyris.Base.{
  ℕ, zero, suc, ◌+◌, ◌-◌, ◌≤◌, ◌<◌, ◌≡◌, ◌≢◌, ◌⊎◌, ap, ◌∙◌, arith, true, false, ◌==◌, if◌then◌else◌,
  ℕ_discrete, Option, none, some,
}
use xyris.Library.Memory.{Bytes, store, memcpy}
use xyris.Library.Memory.Copy.{moved, memcpy_lem}
use xyris.Library.Strings.Buffers.{strlen_from, strlen, strcat, strcpy, strncpy}

-- A string of `n` characters starts at `p`.
pub record IsText (m : Bytes) (p n : ℕ) : Type 0 where
  pub inside : (q : ℕ) → p ≤ q → q < p + n → m q ≢ 0
  pub ends : m (p + n) ≡ 0

-- There is a resulting memory, and it is `f`.
abbrev pub Leaves : Option Bytes → Bytes → Type 0
Leaves none f = ⊥
Leaves (some m) f = (q : ℕ) → m q ≡ f q

pub Leaves-trans :
    (r : Option Bytes) (f g : Bytes) → Leaves r f → ((q : ℕ) → f q ≡ g q) → Leaves r g
Leaves-trans (some m) f g h e = λ q. h q ∙ e q
Leaves-trans none f g h e = h

strlen_from_lem :
    (n : ℕ) (m : Bytes) (s i e : ℕ)
    → IsText m s e
    → i ≤ e
    → e < i + n
    → strlen_from n m s i ≡ some e
unfolding strlen_from
strlen_from_lem zero m s i e t lo hi = absurd (omega arith)
strlen_from_lem (suc n) m s i e t lo hi = elim (ℕ_discrete i e) [
  | yes at ↦
      let stop : (m (s + i) == 0) ≡ true = ground (arith, ap (λ x. m (s + x)) at ∙ t.ends) in
      rw stop (ap some at)
  | no before ↦
      let go : (m (s + i) == 0) ≡ false =
        ground (arith, t.inside (s + i) (omega arith) (omega (arith, before))) in
      rw go (strlen_from_lem n m s (i + 1) e t (omega (arith, before)) (omega arith))
]

-- `strlen` returns the number of characters, in one round more.
pub strlen_lem : (n : ℕ) (m : Bytes) (s e : ℕ) → IsText m s e → e < n → strlen n m s ≡ some e
unfolding strlen
strlen_lem n m s e t h = strlen_from_lem n m s 0 e t (omega arith) (omega arith)

-- The rest of a string behind its first character, which was copied to `dest`.
IsText-rest :
    (m : Bytes) (dest src k : ℕ)
    → IsText m src (suc k)
    → (dest ≤ src) ⊎ (src + suc k < dest)
    → IsText (store m dest (m src)) (src + 1) k
IsText-rest m dest src k t apart = record {
  inside = λ q lo hi. ground (arith, t.inside q (omega arith) (omega arith), apart);
  ends =
      let e : m (src + 1 + k) ≡ m (src + suc k) =
        ap m (let r : src + 1 + k ≡ src + suc k = omega arith in r) in
      ground (arith, t.ends, e, apart);
}

-- A byte that is moved first, and the bytes behind it, where it overwrites none of them.
moved-step :
    (m : Bytes) (dest src n q : ℕ)
    → (dest ≤ src) ⊎ (src + n < dest)
    → moved (store m dest (m src)) (dest + 1) (src + 1) n q ≡ moved m dest src (suc n) q
moved-step m dest src n q apart =
    let next : dest + 1 ≤ q → m (src + 1 + (q - (dest + 1))) ≡ m (src + (q - dest)) =
      λ h. ap m (let e : src + 1 + (q - (dest + 1)) ≡ src + (q - dest) = omega arith in e) in
    let first : q ≡ dest → m (src + (q - dest)) ≡ m src =
      λ at. ap m (let e : src + (q - dest) ≡ src = omega arith in e) in
    ground (arith, next, first, apart)

-- `strcpy` copies the string with its null.
pub strcpy_lem :
    (n : ℕ) (m : Bytes) (dest src k : ℕ)
    → IsText m src k
    → k < n
    → (dest ≤ src) ⊎ (src + k < dest)
    → Leaves (strcpy n m dest src) (moved m dest src (suc k))
unfolding strcpy
strcpy_lem zero m dest src k t rounds apart = absurd (omega arith)
strcpy_lem (suc n) m dest src zero t rounds apart =
    let stop : (m src == 0) ≡ true =
      ground (arith, ap m (let e : src + 0 ≡ src = omega arith in e), t.ends) in
    rw stop (λ q.
      let null : q ≡ dest → m (src + (q - dest)) ≡ m (src + 0) =
        λ at. ap m (let e : src + (q - dest) ≡ src + 0 = omega arith in e) in
      ground (arith, null, t.ends))
strcpy_lem (suc n) m dest src (suc k) t rounds apart =
    let go : (m src == 0) ≡ false = ground (arith, t.inside src (omega arith) (omega arith)) in
    rw go (
      Leaves-trans _ _ _
        (strcpy_lem n (store m dest (m src)) (dest + 1) (src + 1) k
          (IsText-rest m dest src k t apart) (omega arith) (ground arith))
        (λ q. moved-step m dest src (suc k) q (ground arith)))

-- A memory that holds both strings, one behind the other, in place of the first.
pub record Joined (m : Bytes) (dest src d k : ℕ) (m' : Bytes) : Type 0 where
  pub text : IsText m' dest (d + k)
  pub bytes : (q : ℕ) → m' q ≡ moved m (dest + d) src (k + 1) q

abbrev pub Joins : Bytes → ℕ → ℕ → ℕ → ℕ → Option Bytes → Type 0
Joins m dest src d k none = ⊥
Joins m dest src d k (some m') = Joined m dest src d k m'

moved-Joined :
    (m m' : Bytes) (dest src d k : ℕ)
    → IsText m dest d
    → IsText m src k
    → ((q : ℕ) → m' q ≡ moved m (dest + d) src (k + 1) q)
    → Joined m dest src d k m'
moved-Joined m m' dest src d k td ts h = record {
  text = record {
    inside = λ q lo hi.
        let from : dest + d ≤ q → m (src + (q - (dest + d))) ≢ 0 =
          λ g. ts.inside _ (omega arith) (omega arith) in
        let own : q < dest + d → m q ≢ 0 = td.inside q lo in ground (arith, h q, from, own);
    ends =
        let e : m (src + (dest + (d + k) - (dest + d))) ≡ m (src + k) =
          ap m (let r : src + (dest + (d + k) - (dest + d)) ≡ src + k = omega arith in r) in
        ground (arith, h (dest + (d + k)), e, ts.ends);
  };
  bytes = h;
}

-- With rounds for both lengths, and where the second string is not overwritten, `strcat` ends with the
-- first string followed by the second one, and changes only the bytes behind the first.
pub strcat-Joins :
    (n : ℕ) (m : Bytes) (dest src d k : ℕ)
    → IsText m dest d
    → IsText m src k
    → d < n
    → k < n
    → (dest + d ≤ src) ⊎ (src + k < dest + d)
    → Joins m dest src d k (strcat n m dest src)
unfolding strcat
strcat-Joins n m dest src d k td ts hd hk apart =
    rw (strlen_lem n m dest d td hd, strlen_lem n m src k ts hk)
      (moved-Joined m (memcpy m (dest + d) src (k + 1)) dest src d k td ts (λ q.
        memcpy_lem m (dest + d) src (k + 1) q
          (let a : (dest + d ≤ src) ⊎ (src + (k + 1) ≤ dest + d) = ground arith in a)))

-- `strncpy` of a string with at least `len` characters writes one byte more: a null behind them.
pub strncpy-ends :
    (m : Bytes) (dest src k len q : ℕ)
    → IsText m src k
    → len ≤ k
    → (dest ≤ src) ⊎ (src + k < dest)
    → strncpy m dest src len q ≡ (if dest + len == q then 0 else moved m dest src len q)
unfolding strncpy
strncpy-ends m dest src k zero q t h apart = ground arith
strncpy-ends m dest src zero (suc len) q t h apart = absurd (omega arith)
strncpy-ends m dest src (suc k) (suc len) q t h apart =
    let go : (m src == 0) ≡ false = ground (arith, t.inside src (omega arith) (omega arith)) in
    let step = moved-step m dest src len q (ground arith) in
    rw
      (
        go,
        strncpy-ends (store m dest (m src)) (dest + 1) (src + 1) k len q
            (IsText-rest m dest src k t apart) (omega arith) (ground arith),
        step,
      )
      (ground arith)
