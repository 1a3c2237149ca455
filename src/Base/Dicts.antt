-- ===== src/Base/Dicts.antt =====
-- Python's `dict` with text keys, as an association list in insertion order.
use Prim.Native.Nat.{ℕ, ◌+◌}
use Prim.Native.String.{String}
use text.Mathlib.Text.{◌==◌ as str_eq}
use text.Mathlib.TextEquality.{eq_iff}
use mathlib.Core.Path.{◌≡◌, refl}
use mathlib.Core.Bool.{true, false}
use mathlib.Core.Option.{Option, none, some}
use mathlib.Core.List.{List, [], ◌∷◌}
use native.Mathlib.Omega.{arith}
use mathlib.Core.Path.{subst}
use mathlib.Core.Logic.{inl, inr}
use mathlib.Core.List.{◌++◌, map}
use Prim.Native.Nat.{suc}
use aegify.Base.Tests.{if◌then◌else◌, Bool-cases}
use aegify.Base.Lists.{All, sum_by, length}
use aegify.Base.Texts.{str_mem, distinct}

abbrev pub Dict {ℓ} : Type ℓ → Type ℓ
Dict V = List (String × V)

module _ {ℓ} {V : Type ℓ} where
  -- d.get(k)
  abbrev pub lookup : String → Dict V → Option V
  lookup k [] = none
  lookup k ((j, v) ∷ d) = if str_eq j k then some v else lookup k d

  -- d[k] = v: an existing key keeps its place.
  abbrev pub insert : String → V → Dict V → Dict V
  insert k v [] = (k, v) ∷ []
  insert k v ((j, w) ∷ d) = if str_eq j k then (k, v) ∷ d else (j, w) ∷ insert k v d

  -- del d[k]
  abbrev pub remove : String → Dict V → Dict V
  remove k [] = []
  remove k ((j, v) ∷ d) = if str_eq j k then d else (j, v) ∷ remove k d

  pub lookup-insert :
      (k j : String) (v : V) (d : Dict V)
      → lookup j (insert k v d) ≡ (if str_eq k j then some v else lookup j d)
  lookup-insert k j v [] = refl
  lookup-insert k j v ((i, w) ∷ d) =
      ground (arith, eq_iff k j, eq_iff i k, eq_iff i j, lookup-insert k j v d)

abbrev pub keys {ℓ} : {V : Type ℓ} → Dict V → List String
keys = map (λ e. e.0)

module _ {ℓ} {V : Type ℓ} where
  -- A new key is put at the end.
  pub insert_absent :
      (k : String) (v : V) (d : Dict V)
      → str_mem k (keys d) ≡ false
      → insert k v d ≡ d ++ (k, v) ∷ []
  insert_absent k v [] h = refl
  insert_absent k v ((j, w) ∷ d) h = ground (arith, eq_iff j k, eq_iff k j, insert_absent k v d)

  pub All-of_remove {κ} :
      (P : String × V → Type κ) (k : String) (d : Dict V) → All P d → All P (remove k d)
  All-of_remove P k [] h = h
  All-of_remove P k ((j, v) ∷ d) h = elim (Bool-cases (str_eq j k)) [
    | inl e ↦ rw e h.1
    | inr e ↦ rw e (h.0, All-of_remove P k d h.1)
  ]

  -- Where keys are distinct, no entry of the removed key is left.
  pub keys-remove_absent :
      (k : String) (d : Dict V) → distinct (keys d) ≡ true → str_mem k (keys (remove k d)) ≡ false
  keys-remove_absent k [] h = refl
  keys-remove_absent k ((j, v) ∷ d) h =
      ground (arith, eq_iff j k, eq_iff k j, keys-remove_absent k d)

  pub str_mem-remove :
      (i k : String) (d : Dict V)
      → str_mem i (keys d) ≡ false
      → str_mem i (keys (remove k d)) ≡ false
  str_mem-remove i k [] h = refl
  str_mem-remove i k ((j, v) ∷ d) h = ground (arith, str_mem-remove i k d)

  pub distinct-remove :
      (k : String) (d : Dict V) → distinct (keys d) ≡ true → distinct (keys (remove k d)) ≡ true
  distinct-remove k [] h = refl
  distinct-remove k ((j, v) ∷ d) h = ground (arith, distinct-remove k d, str_mem-remove j k d)

  -- Removing a key that is there takes its measure out of the sum.
  pub sum_by-remove :
      (f : String × V → ℕ) (k : String) (v : V) (d : Dict V)
      → lookup k d ≡ some v
      → sum_by f (remove k d) + f (k, v) ≡ sum_by f d
  sum_by-remove f k v [] h = absurd (cc)
  sum_by-remove f k v ((j, w) ∷ d) h = ground (arith, eq_iff j k, sum_by-remove f k v d)

  pub length-remove :
      (k : String) (v : V) (d : Dict V) → lookup k d ≡ some v → suc (length (remove k d)) ≡ length d
  length-remove k v [] h = absurd (cc)
  length-remove k v ((j, w) ∷ d) h = ground (arith, length-remove k v d)

  pub All-lookup {κ} :
      (P : String × V → Type κ) (k : String) (v : V) (d : Dict V)
      → All P d
      → lookup k d ≡ some v
      → P (k, v)
  All-lookup P k v [] a h = absurd (cc)
  All-lookup P k v ((j, w) ∷ d) a h = elim (Bool-cases (str_eq j k)) [
    | inl e ↦ let same : (j, w) ≡ (k, v) = ground (arith, eq_iff j k) in subst P same a.0
    | inr e ↦ All-lookup P k v d a.1 (rw e at h)
  ]
