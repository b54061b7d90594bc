-- ===== src/Library/Strings.antt =====
-- Kernel/Library/string.cpp, the comparison and the search of strings. A string is the list of the
-- characters in front of its terminating null.
pub mod Buffers
pub mod Search
mod Tests
use xyris.Base.{ℕ, Bool, true, false, ◌==◌, ◌&&◌, if◌then◌else◌, List, [], ◌∷◌, Option, none, some}

-- `*s`: the terminating null at the end.
abbrev pub first_char : List ℕ → ℕ
first_char [] = 0
first_char (c ∷ cs) = c

-- The two characters whose difference `strcmp` returns.
unfoldable pub strcmp : List ℕ → List ℕ → ℕ × ℕ
strcmp [] s2 = (0, first_char s2)
strcmp (c ∷ s1) [] = (c, 0)
strcmp (c ∷ s1) (d ∷ s2) = let rest = strcmp s1 s2 in if c == d then rest else (c, d)

-- `strcmp(s1, s2) == 0`
abbrev pub is_equal : ℕ × ℕ → Bool
is_equal r = r.0 == r.1

-- `strstr`: the rest of the haystack from the place that was found.
unfoldable pub strstr : List ℕ → List ℕ → Option (List ℕ)
strstr [] needle = none
strstr (c ∷ cs) needle =
    let rest = strstr cs needle in
    if (c == first_char needle) && is_equal (strcmp (c ∷ cs) needle) then some (c ∷ cs) else rest
