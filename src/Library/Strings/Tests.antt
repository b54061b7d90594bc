-- ===== src/Library/Strings/Tests.antt =====
-- Runs of the search, and its theorem at a haystack that ends with the needle.
use xyris.Base.{◌≡◌, refl, ℕ, List, [], ◌∷◌, none, some}
use xyris.Library.Strings.{strcmp, strstr}

abbrev haystack : List ℕ
haystack = 97 ∷ 98 ∷ 99 ∷ []

searches :
    (strstr haystack (98 ∷ 99 ∷ []) ≡ some (98 ∷ 99 ∷ [])) × (strstr haystack (98 ∷ []) ≡ none)
unfolding strstr strcmp
searches = (refl, refl)
