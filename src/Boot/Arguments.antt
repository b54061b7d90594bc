-- ===== src/Boot/Arguments.antt =====
-- Kernel/Bootloader/Arguments.cpp: the registered arguments of the command line. What a callback does to
-- the kernel's state, a type of the section, is part of its argument.
use xyris.Base.{ℕ, ◌≡◌, refl, ◌∙◌, ap, List, [], ◌∷◌, Option, none, some, subst}
use xyris.Library.Strings.{strstr}
use xyris.Library.Strings.Search.{HasNoNull, FindsSuffix, IsSuffixOf, strstr-FindsSuffix}

-- `struct argument`
pub record Argument (K : Type 0) : Type 0 where
  pub arg : List ℕ
  pub callback : List ℕ → K → K

module _ {K : Type 0} where
  abbrev pub call_back : Argument K → Option (List ℕ) → K → K
  call_back a none k = k
  call_back a (some rest) k = a.callback a.arg k

  -- `parseCommandLine` over the arguments from `_ARGUMENTS_START` to `_ARGUMENTS_END`.
  unfoldable pub parse_command_line : List (Argument K) → List ℕ → K → K
  parse_command_line [] cmdline k = k
  parse_command_line (a ∷ args) cmdline k =
      parse_command_line args cmdline (call_back a (strstr cmdline a.arg) k)

  -- No argument has a null inside, and none ends the command line.
  abbrev pub NoneEnds : List (Argument K) → List ℕ → Type 0
  NoneEnds [] cmdline = Unit {0}
  NoneEnds (a ∷ args) cmdline =
      HasNoNull a.arg × (IsSuffixOf a.arg cmdline → ⊥) × NoneEnds args cmdline

  missed :
      (a : Argument K) (cmdline : List ℕ) (k : K) (o : Option (List ℕ))
      → (IsSuffixOf a.arg cmdline → ⊥)
      → FindsSuffix cmdline a.arg o
      → call_back a o k ≡ k
  missed a cmdline k none ne f = refl
  missed a cmdline k (some r) ne (e, at) = absurd (ne (subst (λ x. IsSuffixOf x cmdline) e at))

  -- Of a command line and arguments without a null inside, `parseCommandLine` calls no argument back
  -- that does not end the command line: if none does, the kernel's state stays as it is.
  pub parse_command_line-NoneEnds :
      (args : List (Argument K)) (cmdline : List ℕ) (k : K)
      → HasNoNull cmdline
      → NoneEnds args cmdline
      → parse_command_line args cmdline k ≡ k
  unfolding parse_command_line
  parse_command_line-NoneEnds [] cmdline k h n = refl
  parse_command_line-NoneEnds (a ∷ args) cmdline k h (whole, ne, n) =
      let f = strstr-FindsSuffix cmdline a.arg h whole in
      ap (parse_command_line args cmdline) (missed a cmdline k (strstr cmdline a.arg) ne f)
      ∙ parse_command_line-NoneEnds args cmdline k h n
