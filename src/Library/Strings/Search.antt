-- ===== src/Library/Strings/Search.antt =====
-- `strcmp` is 0 for equal strings only, so `strstr` finds a needle only at the haystack's end.
use xyris.Base.{
  ℕ, ◌≡◌, ◌≢◌, refl, sym, ap, ap₂, Bool, true, false, ◌==◌, ◌&&◌, if◌then◌else◌, Bool-cases, ==_iff,
  inl, inr, List, [], ◌∷◌, ◌++◌, Option, none, some, subst,
}
use xyris.Library.Strings.{first_char, strcmp, is_equal, strstr}

-- No character of the string is the terminating null.
abbrev pub HasNoNull : List ℕ → Type 0
HasNoNull [] = Unit {0}
HasNoNull (c ∷ cs) = (c ≢ 0) × HasNoNull cs

other_and_same : {b : Bool} → b ≡ false → b ≡ true → ⊥
other_and_same f t = cc

right_of_and : (a b : Bool) → (a && b) ≡ true → b ≡ true
right_of_and true b h = h
right_of_and false b h = cc

-- Strings that `strcmp` calls equal are equal.
strcmp-equal : (s t : List ℕ) → HasNoNull s → HasNoNull t → is_equal (strcmp s t) ≡ true → s ≡ t
unfolding strcmp
strcmp-equal [] [] hs ht e = refl
strcmp-equal [] (d ∷ t) hs (nd, ht) e = absurd (nd (sym ((==_iff 0 d).0 e)))
strcmp-equal (c ∷ s) [] (nc, hs) ht e = absurd (nc ((==_iff c 0).0 e))
strcmp-equal (c ∷ s) (d ∷ t) (nc, hs) (nd, ht) e = elim (Bool-cases (c == d)) [
  | inl same ↦
      let rest : is_equal (strcmp s t) ≡ true =
        subst (λ b. is_equal (if b then strcmp s t else (c, d)) ≡ true) same e in
      ap₂ (λ x xs. x ∷ xs) ((==_iff c d).0 same) (strcmp-equal s t hs ht rest)
  | inr other ↦
      let still : (c == d) ≡ true =
        subst (λ b. is_equal (if b then strcmp s t else (c, d)) ≡ true) other e in
      absurd (other_and_same other still)
]

-- What is found is the rest of the haystack from its place on, and is the needle itself.
abbrev pub IsSuffixOf : List ℕ → List ℕ → Type 0
IsSuffixOf r haystack = (front : List ℕ) × (haystack ≡ front ++ r)

-- What a search of the haystack found, if it found something, is the needle and ends the haystack.
abbrev pub FindsSuffix : List ℕ → List ℕ → Option (List ℕ) → Type 0
FindsSuffix haystack needle none = Unit {0}
FindsSuffix haystack needle (some r) = (r ≡ needle) × IsSuffixOf r haystack

Finds-later :
    (c : ℕ) (h n : List ℕ) (o : Option (List ℕ)) → FindsSuffix h n o → FindsSuffix (c ∷ h) n o
Finds-later c h n none f = tt
Finds-later c h n (some r) (e, (front, at)) = (e, (c ∷ front, ap (λ x. c ∷ x) at))

-- For strings without a null inside, `strstr` finds only what is at the haystack's end: what it
-- returns is the needle, and the haystack ends there.
pub strstr-FindsSuffix :
    (haystack needle : List ℕ)
    → HasNoNull haystack
    → HasNoNull needle
    → FindsSuffix haystack needle (strstr haystack needle)
unfolding strstr
strstr-FindsSuffix [] needle hh hn = tt
strstr-FindsSuffix (c ∷ h) needle (nc, hh) hn =
    elim (Bool-cases ((c == first_char needle) && is_equal (strcmp (c ∷ h) needle))) [
      | inl hit ↦ rw hit (
        strcmp-equal (c ∷ h) needle (nc, hh) hn (right_of_and (c == first_char needle) _ hit),
        ([], refl),
      )
      | inr miss ↦ rw miss (Finds-later c h needle _ (strstr-FindsSuffix h needle hh hn))
    ]
