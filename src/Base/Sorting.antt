-- ===== src/Base/Sorting.antt =====
-- Python's `sorted`: a stable sort by an order test, here by insertion, and that it keeps the items.
use mathlib.Core.Path.{◌≡◌}
use mathlib.Core.Logic.{◌⊎◌, inl, inr}
use mathlib.Core.Bool.{Bool}
use mathlib.Core.List.{List, [], ◌∷◌}
use aegify.Base.Tests.{if◌then◌else◌, Bool-cases}

-- An item of a list, at a place in it.
pub data Member {ℓ} {A : Type ℓ} (a : A) : List A → Type ℓ where
  here : {x : A} {xs : List A} → a ≡ x → Member a (x ∷ xs)
  there : {x : A} {xs : List A} → Member a xs → Member a (x ∷ xs)

module _ {ℓ} {A : Type ℓ} (before : A → A → Bool) where
  -- Before the first item that `x` comes before: an item that is already there stays ahead of an
  -- equal one that is put in later.
  pub insert_sorted : A → List A → List A
  insert_sorted x [] = x ∷ []
  insert_sorted x (y ∷ ys) = if before x y then x ∷ y ∷ ys else y ∷ insert_sorted x ys

  pub sort_onto : List A → List A → List A
  sort_onto out [] = out
  sort_onto out (x ∷ xs) = sort_onto (insert_sorted x out) xs

  unfoldable pub sorted : List A → List A
  unfolding sort_onto insert_sorted
  sorted xs = sort_onto [] xs

  insert-here : (x : A) (ys : List A) (a : A) → a ≡ x → Member a (insert_sorted x ys)
  unfolding insert_sorted
  insert-here x [] a p = here p
  insert-here x (y ∷ ys) a p = elim (Bool-cases (before x y)) [
    | inl e ↦ rw e (here p)
    | inr e ↦ rw e (there (insert-here x ys a p))
  ]

  insert-there : (x : A) (ys : List A) (a : A) → Member a ys → Member a (insert_sorted x ys)
  unfolding insert_sorted
  insert-there x [] a m = there m
  insert-there x (y ∷ ys) a (here p) = elim (Bool-cases (before x y)) [
    | inl e ↦ rw e (there (here p))
    | inr e ↦ rw e (here p)
  ]
  insert-there x (y ∷ ys) a (there m) = elim (Bool-cases (before x y)) [
    | inl e ↦ rw e (there (there m))
    | inr e ↦ rw e (there (insert-there x ys a m))
  ]

  later-cases :
      {a x y : A} {ys zs : List A}
      → Member a (y ∷ zs)
      → (Member a zs → (a ≡ x) ⊎ Member a ys)
      → (a ≡ x) ⊎ Member a (y ∷ ys)
  later-cases (here p) f = inr (here p)
  later-cases (there m) f = elim (f m) [ inl p ↦ inl p | inr n ↦ inr (there n) ]

  now-cases : {a x : A} {ys : List A} → Member a (x ∷ ys) → (a ≡ x) ⊎ Member a ys
  now-cases (here p) = inl p
  now-cases (there m) = inr m

  insert-cases :
      (x : A) (ys : List A) (a : A) → Member a (insert_sorted x ys) → (a ≡ x) ⊎ Member a ys
  unfolding insert_sorted
  insert-cases x [] a m = now-cases m
  insert-cases x (y ∷ ys) a m = elim (Bool-cases (before x y)) [
    | inl e ↦ now-cases (rw e at m)
    | inr e ↦ later-cases (rw e at m) (insert-cases x ys a)
  ]

  onto-there : (out xs : List A) (a : A) → Member a out → Member a (sort_onto out xs)
  unfolding sort_onto
  onto-there out [] a m = m
  onto-there out (x ∷ xs) a m = onto-there (insert_sorted x out) xs a (insert-there x out a m)

  onto-item : (out xs : List A) (a : A) → Member a xs → Member a (sort_onto out xs)
  unfolding sort_onto
  onto-item out [] a m = elim m [ ]
  onto-item out (x ∷ xs) a (here p) = onto-there (insert_sorted x out) xs a (insert-here x out a p)
  onto-item out (x ∷ xs) a (there m) = onto-item (insert_sorted x out) xs a m

  onto-cases : (out xs : List A) (a : A) → Member a (sort_onto out xs) → Member a out ⊎ Member a xs
  unfolding sort_onto
  onto-cases out [] a m = inl m
  onto-cases out (x ∷ xs) a m = elim (onto-cases (insert_sorted x out) xs a m) [
    | inl o ↦ elim (insert-cases x out a o) [ inl p ↦ inr (here p) | inr n ↦ inl n ]
    | inr n ↦ inr (there n)
  ]

  -- Sorting neither loses nor invents an item.
  pub sorted-Member : (xs : List A) (a : A) → Member a xs → Member a (sorted xs)
  unfolding sorted
  sorted-Member xs a m = onto-item [] xs a m

  pub Member_of_sorted : (xs : List A) (a : A) → Member a (sorted xs) → Member a xs
  unfolding sorted
  Member_of_sorted xs a m = elim (onto-cases [] xs a m) [ inl n ↦ none_in n | inr n ↦ n ]
    where
      none_in : Member a [] → Member a xs
      none_in n = elim n [ ]
