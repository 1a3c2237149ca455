-- ===== src/Base/Ascending.antt =====
-- Python's `sorted(set(texts))`, and `sorted` by a text: texts come in the order of their code points.
use Prim.Native.Nat.{ℕ, suc, ◌≤◌, ◌<◌, Ordering, compare as compare_nat}
use Prim.Native.Char.{code}
use Prim.Native.String.{String, compare, then}
use Prim.Native.String.compare
use text.Mathlib.Text.{◌==◌ as str_eq}
use mathlib.Core.Path.{◌≡◌, refl, sym, ◌∙◌, ap₂}
use mathlib.Core.Bool.{Bool, true, false, ◌&&◌}
use mathlib.Core.List.{List, [], ◌∷◌}
use native.Mathlib.Omega.{arith}
use mathlib.Core.Logic.{◌⊎◌, ◌≢◌, inl, inr}
use text.Mathlib.TextEquality.{eq_iff}
use text.Mathlib.TextPositions.{eq_refl}
use aegify.Base.Lists.{length, all}

-- `s < t`
abbrev pub text_before : String → String → Bool
text_before s t = elim (compare s t) [ Ordering.lt ↦ true | _ ↦ false ]

unfoldable place : Ordering → String → String → List String → List String → List String
place Ordering.lt x y ys rest = x ∷ y ∷ ys
place Ordering.eq x y ys rest = y ∷ ys
place Ordering.gt x y ys rest = y ∷ rest

unfoldable insert_unique : String → List String → List String
unfolding place
insert_unique x [] = x ∷ []
insert_unique x (y ∷ ys) = place (compare x y) x y ys (insert_unique x ys)

unfoldable pub sorted_set : List String → List String
unfolding insert_unique
sorted_set [] = []
sorted_set (x ∷ xs) = insert_unique x (sorted_set xs)

-- `xs == ys`
abbrev pub texts_eq : List String → List String → Bool
texts_eq [] [] = true
texts_eq [] (y ∷ ys) = false
texts_eq (x ∷ xs) [] = false
texts_eq (x ∷ xs) (y ∷ ys) = str_eq x y && texts_eq xs ys

nat_gt→lt : (m n : ℕ) → compare_nat m n ≡ Ordering.gt → compare_nat n m ≡ Ordering.lt
nat_gt→lt m n h = ground arith

nat_eq→eq : (m n : ℕ) → compare_nat m n ≡ Ordering.eq → compare_nat n m ≡ Ordering.eq
nat_eq→eq m n h = ground arith

pub both_true : (a b : Bool) → (a && b) ≡ true → (a ≡ true) × (b ≡ true)
both_true true b h = (refl, h)
both_true false b h = absurd (cc)

then_gt→lt :
    (a b p q : Ordering)
    → (a ≡ Ordering.gt → b ≡ Ordering.lt)
    → (a ≡ Ordering.eq → b ≡ Ordering.eq)
    → (p ≡ Ordering.gt → q ≡ Ordering.lt)
    → then a p ≡ Ordering.gt
    → then b q ≡ Ordering.lt
then_gt→lt Ordering.lt b p q f g k h = absurd (cc)
then_gt→lt Ordering.eq b p q f g k h = let e = g refl in rw e (k h)
then_gt→lt Ordering.gt b p q f g k h = let e = f refl in rw e refl

eq-ne-gt : Ordering.eq ≢ Ordering.gt
eq-ne-gt h = cc

lt-ne-gt : Ordering.lt ≢ Ordering.gt
lt-ne-gt h = cc

gt→lt : (s t : String) → compare s t ≡ Ordering.gt → compare t s ≡ Ordering.lt
gt→lt String.[] String.[] h = absurd (eq-ne-gt (sym compare.nil-nil ∙ h))
gt→lt String.[] (String.◌∷◌ d t) h = absurd (lt-ne-gt (sym (compare.nil-cons d t) ∙ h))
gt→lt (String.◌∷◌ c s) String.[] h = compare.nil-cons c s
gt→lt (String.◌∷◌ c s) (String.◌∷◌ d t) h =
    compare.cons-cons d c t s
    ∙ (then_gt→lt (compare_nat (code c) (code d)) (compare_nat (code d) (code c)) (compare s t)
        (compare t s) (nat_gt→lt (code c) (code d)) (nat_eq→eq (code c) (code d)) (gt→lt s t)
        (sym (compare.cons-cons c d s t) ∙ h))

-- Each text comes before the next.
unfoldable Chain : String → List String → Type 0
Chain x [] = Unit
Chain x (y ∷ ys) = (compare x y ≡ Ordering.lt) × Chain y ys

unfoldable Ascends : List String → Type 0
unfolding Chain
Ascends [] = Unit
Ascends (x ∷ xs) = Chain x xs

Ordering-cases : (o : Ordering) → (o ≡ Ordering.lt) ⊎ ((o ≡ Ordering.eq) ⊎ (o ≡ Ordering.gt))
Ordering-cases Ordering.lt = inl refl
Ordering-cases Ordering.eq = inr (inl refl)
Ordering-cases Ordering.gt = inr (inr refl)

insert-Chain :
    (w x : String) (ys : List String)
    → compare w x ≡ Ordering.lt
    → Chain w ys
    → Chain w (insert_unique x ys)
unfolding Chain insert_unique place
insert-Chain w x [] h c = (h, tt)
insert-Chain w x (y ∷ ys) h c = elim (Ordering-cases (compare x y)) [
  | inl e ↦ rw e (h, (e, c.1))
  | inr (inl e) ↦ rw e c
  | inr (inr e) ↦ rw e (c.0, insert-Chain y x ys (gt→lt x y e) c.1)
]

insert-Ascends : (x : String) (ys : List String) → Ascends ys → Ascends (insert_unique x ys)
unfolding Ascends Chain insert_unique place
insert-Ascends x [] a = tt
insert-Ascends x (y ∷ ys) a = elim (Ordering-cases (compare x y)) [
  | inl e ↦ rw e (e, a)
  | inr (inl e) ↦ rw e a
  | inr (inr e) ↦ rw e (insert-Chain y x ys (gt→lt x y e) a)
]

sorted_set-Ascends : (xs : List String) → Ascends (sorted_set xs)
unfolding sorted_set Ascends
sorted_set-Ascends [] = tt
sorted_set-Ascends (x ∷ xs) = insert-Ascends x (sorted_set xs) (sorted_set-Ascends xs)

rest-Ascends : (x : String) (ys : List String) → Ascends (x ∷ ys) → Ascends ys
unfolding Ascends Chain
rest-Ascends x [] a = tt
rest-Ascends x (y ∷ ys) a = a.1

insert_first : (x : String) (ys : List String) → Ascends (x ∷ ys) → insert_unique x ys ≡ x ∷ ys
unfolding Ascends Chain insert_unique place
insert_first x [] a = refl
insert_first x (y ∷ ys) a = rw a.0 refl

Ascends-sorted_set : (xs : List String) → Ascends xs → sorted_set xs ≡ xs
unfolding sorted_set
Ascends-sorted_set [] a = refl
Ascends-sorted_set (x ∷ xs) a =
    let same = Ascends-sorted_set xs (rest-Ascends x xs a) in rw same (insert_first x xs a)

-- A sorted set is its own sorted set.
pub sorted_set-sorted_set : (xs : List String) → sorted_set (sorted_set xs) ≡ sorted_set xs
sorted_set-sorted_set xs = Ascends-sorted_set (sorted_set xs) (sorted_set-Ascends xs)

pub texts_eq_refl : (xs : List String) → texts_eq xs xs ≡ true
texts_eq_refl [] = refl
texts_eq_refl (x ∷ xs) = rw (eq_refl x) (texts_eq_refl xs)

pub texts_eq→eq : (xs ys : List String) → texts_eq xs ys ≡ true → xs ≡ ys
texts_eq→eq [] [] h = refl
texts_eq→eq [] (y ∷ ys) h = absurd (cc)
texts_eq→eq (x ∷ xs) [] h = absurd (cc)
texts_eq→eq (x ∷ xs) (y ∷ ys) h =
    let (p, q) = both_true (str_eq x y) (texts_eq xs ys) h in
    ap₂ (λ a b. a ∷ b) ((eq_iff x y).0 p) (texts_eq→eq xs ys q)

insert-length : (x : String) (ys : List String) → length (insert_unique x ys) ≤ suc (length ys)
unfolding insert_unique place
insert-length x [] = omega arith
insert-length x (y ∷ ys) = elim (Ordering-cases (compare x y)) [
  | inl e ↦ rw e (omega arith)
  | inr (inl e) ↦ rw e (omega arith)
  | inr (inr e) ↦ rw e (omega (arith, insert-length x ys))
]

pub length-sorted_set-le : (xs : List String) → length (sorted_set xs) ≤ length xs
unfolding sorted_set
length-sorted_set-le [] = omega arith
length-sorted_set-le (x ∷ xs) =
    omega (arith, insert-length x (sorted_set xs), length-sorted_set-le xs)

-- A test that all texts pass, all texts of their sorted set pass.
insert-all :
    (p : String → Bool) (x : String) (ys : List String)
    → p x ≡ true
    → all p ys ≡ true
    → all p (insert_unique x ys) ≡ true
unfolding insert_unique place
insert-all p x [] h a = rw h refl
insert-all p x (y ∷ ys) h a =
    let (b, c) = both_true (p y) (all p ys) a in
    elim (Ordering-cases (compare x y)) [
      | inl e ↦ rw (e, h) a
      | inr (inl e) ↦ rw e a
      | inr (inr e) ↦ rw (e, b) (insert-all p x ys h c)
    ]

pub sorted_set-all :
    (p : String → Bool) (xs : List String) → all p xs ≡ true → all p (sorted_set xs) ≡ true
unfolding sorted_set
sorted_set-all p [] a = refl
sorted_set-all p (x ∷ xs) a =
    let (b, c) = both_true (p x) (all p xs) a in
    insert-all p x (sorted_set xs) b (sorted_set-all p xs c)

insert-nonempty : (x : String) (ys : List String) → 0 < length (insert_unique x ys)
unfolding insert_unique place
insert-nonempty x [] = omega arith
insert-nonempty x (y ∷ ys) = elim (Ordering-cases (compare x y)) [
  | inl e ↦ rw e (omega arith)
  | inr (inl e) ↦ rw e (omega arith)
  | inr (inr e) ↦ rw e (omega arith)
]

pub sorted_set-nonempty : (x : String) (xs : List String) → 0 < length (sorted_set (x ∷ xs))
unfolding sorted_set
sorted_set-nonempty x xs = insert-nonempty x (sorted_set xs)
