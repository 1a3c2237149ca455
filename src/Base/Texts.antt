-- ===== src/Base/Texts.antt =====
-- Texts: equality of whole texts, and their code points where the program walks them.
use Prim.Native.Nat.{ℕ}
use Prim.Native.Char.{code}
use Prim.Native.String.{String}
use text.Mathlib.Text.{◌==◌}
use text.Mathlib.TextEquality.{eq_iff}
use mathlib.Core.Bool.{Bool, true, false, not, ◌||◌, ◌&&◌}
use mathlib.Core.Logic.{inl, inr}
use mathlib.Core.Path.{◌≡◌}
use native.Mathlib.Omega.{arith}
use aegify.Base.Tests.{Bool-cases}
use aegify.Base.Sorting.{Member}
use mathlib.Core.List.{List, [], ◌∷◌}

abbrev pub str_eq : String → String → Bool
str_eq s t = s == t

-- `needle in {...}`
abbrev pub str_mem : String → List String → Bool
str_mem s [] = false
str_mem s (t ∷ ts) = str_eq s t || str_mem s ts

-- The code points of a text. `String` has its own `[]` and `∷`.
abbrev pub codes : String → List ℕ
codes String.[] = []
codes (String.◌∷◌ c s) = code c ∷ codes s

-- `s == t` as a decision.
unfoldable pub String-discrete : Discrete String
String-discrete s t = elim (Bool-cases (s == t)) [
  | inl e ↦ yes ((eq_iff s t).0 e)
  | inr e ↦ no (λ p. cc (e, (eq_iff s t).1 p))
]

-- `len(set(texts)) == len(texts)`
abbrev pub distinct : List String → Bool
distinct [] = true
distinct (s ∷ ts) = not (str_mem s ts) && distinct ts

-- `list(dict.fromkeys(texts))`, after those that were seen.
abbrev pub unique_from : List String → List String → List String
unique_from seen [] = []
unique_from seen (x ∷ xs) = elim (str_mem x seen) [
  | true ↦ unique_from seen xs
  | false ↦ x ∷ unique_from (x ∷ seen) xs
]

pub Member_of_str : (x : String) (xs : List String) → str_mem x xs ≡ true → Member x xs
Member_of_str x [] h = absurd (cc)
Member_of_str x (y ∷ xs) h = elim (Bool-cases (str_eq x y)) [
  | inl e ↦ Member.here ((eq_iff x y).0 e)
  | inr e ↦ Member.there (Member_of_str x xs (ground arith))
]

pub str_of_Member : (x : String) (xs : List String) → Member x xs → str_mem x xs ≡ true
str_of_Member x [] m = elim m [ ]
str_of_Member x (y ∷ xs) (Member.here p) = ground (arith, eq_iff x y)
str_of_Member x (y ∷ xs) (Member.there m) = ground (arith, str_of_Member x xs m)
