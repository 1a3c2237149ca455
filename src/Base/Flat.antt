-- ===== src/Base/Flat.antt =====
-- Nested loops that collect: `concat_map`, and what it has as members.
use mathlib.Core.Path.{refl, subst}
use mathlib.Core.Logic.{◌⊎◌, inl, inr}
use mathlib.Core.List.{List, [], ◌∷◌, ◌++◌}
use aegify.Base.Sorting.{Member}

abbrev pub concat_map {ℓ κ} : {A : Type ℓ} {B : Type κ} → (A → List B) → List A → List B
concat_map g [] = []
concat_map g (x ∷ xs) = g x ++ concat_map g xs

module _ {κ} {B : Type κ} where
  pub append-left : (b : B) (xs ys : List B) → Member b xs → Member b (xs ++ ys)
  append-left b [] ys m = elim m [ ]
  append-left b (x ∷ xs) ys (Member.here p) = Member.here p
  append-left b (x ∷ xs) ys (Member.there m) = Member.there (append-left b xs ys m)

  pub append-right : (b : B) (xs ys : List B) → Member b ys → Member b (xs ++ ys)
  append-right b [] ys m = m
  append-right b (x ∷ xs) ys m = Member.there (append-right b xs ys m)

  pub append-cases : (b : B) (xs ys : List B) → Member b (xs ++ ys) → Member b xs ⊎ Member b ys
  append-cases b [] ys m = inr m
  append-cases b (x ∷ xs) ys (Member.here p) = inl (Member.here p)
  append-cases b (x ∷ xs) ys (Member.there m) = elim (append-cases b xs ys m) [
    | inl l ↦ inl (Member.there l)
    | inr r ↦ inr r
  ]

module _ {ℓ κ} {A : Type ℓ} {B : Type κ} (g : A → List B) where
  pub concat_map-in :
      (b : B) (a : A) (xs : List A) → Member a xs → Member b (g a) → Member b (concat_map g xs)
  concat_map-in b a [] n m = elim n [ ]
  concat_map-in b a (x ∷ xs) (Member.here p) m =
      append-left b (g x) (concat_map g xs) (subst (λ u. Member b (g u)) p m)
  concat_map-in b a (x ∷ xs) (Member.there n) m =
      append-right b (g x) (concat_map g xs) (concat_map-in b a xs n m)

  pub concat_map-out :
      (b : B) (xs : List A) → Member b (concat_map g xs) → (a : A) × Member a xs × Member b (g a)
  concat_map-out b [] m = absurd (elim m [ ])
  concat_map-out b (x ∷ xs) m = elim (append-cases b (g x) (concat_map g xs) m) [
    | inl l ↦ (x, Member.here refl, l)
    | inr r ↦ let (a, n, k) = concat_map-out b xs r in (a, Member.there n, k)
  ]
