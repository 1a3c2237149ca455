-- ===== src/Base/Keyed.antt =====
-- An interface for equality tests, and dictionaries keyed by a type that has one. The newest entry
-- stands first.
use Prim.Native.String.{String}
use text.Mathlib.Text.{◌==◌ as str_eq}
use text.Mathlib.TextEquality.{eq_iff}
use mathlib.Core.Path.{◌≡◌, refl}
use mathlib.Core.Logic.{◌↔◌}
use mathlib.Core.Bool.{Bool, true, false, ◌||◌, ◌&&◌}
use mathlib.Core.Option.{Option, none, some}
use mathlib.Core.List.{List, [], ◌∷◌}
use native.Mathlib.Omega.{arith}
use aegify.Base.Tests.{if◌then◌else◌}

pub record Eq {ℓ} (A : Type ℓ) : Type ℓ where
  pub beq : A → A → Bool
  pub beq_iff : (a b : A) → (beq a b ≡ true) ↔ (a ≡ b)

instance abbrev pub String-eq : Eq String
String-eq = record { beq = str_eq; beq_iff = eq_iff }

abbrev pub list_beq {ℓ} : {A : Type ℓ} → (A → A → Bool) → List A → List A → Bool
list_beq f [] [] = true
list_beq f [] (y ∷ ys) = false
list_beq f (x ∷ xs) [] = false
list_beq f (x ∷ xs) (y ∷ ys) = f x y && list_beq f xs ys

pub list_beq_iff {ℓ} :
    {A : Type ℓ} (e : Eq A) (xs ys : List A) → (list_beq e.beq xs ys ≡ true) ↔ (xs ≡ ys)
list_beq_iff e [] [] = (λ h. refl, λ h. refl)
list_beq_iff e [] (y ∷ ys) = (λ h. absurd (cc), λ h. absurd (cc))
list_beq_iff e (x ∷ xs) [] = (λ h. absurd (cc), λ h. absurd (cc))
list_beq_iff e (x ∷ xs) (y ∷ ys) = (
  λ h. ground (arith, e.beq_iff x y, list_beq_iff e xs ys),
  λ h. ground (arith, e.beq_iff x y, list_beq_iff e xs ys),
)

instance abbrev pub List-eq {ℓ} : {A : Type ℓ} ⦃e : Eq A⦄ → Eq (List A)
List-eq ⦃e⦄ = record { beq = list_beq e.beq; beq_iff = list_beq_iff e }

module _ {ℓ} {K : Type ℓ} ⦃e : Eq K⦄ where
  -- `a in keys`
  abbrev pub contains : K → List K → Bool
  contains a [] = false
  contains a (k ∷ ks) = e.beq k a || contains a ks

module _ {ℓ κ} {K : Type ℓ} {V : Type κ} ⦃e : Eq K⦄ where
  -- `d.get(a)`
  abbrev pub find : K → List (K × V) → Option V
  find a [] = none
  find a ((k, v) ∷ d) = if e.beq k a then some v else find a d

  -- `a in d`
  abbrev pub has_key : K → List (K × V) → Bool
  has_key a [] = false
  has_key a ((k, v) ∷ d) = e.beq k a || has_key a d
