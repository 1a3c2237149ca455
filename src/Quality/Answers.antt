-- ===== src/Quality/Answers.antt =====
-- Outcomes of valid cases of scanner/src/aegify/quality/comparison.py, and counting them.
use aegify.Base.{
  ℕ, ◌+◌, ◌&&◌, ◌||◌, ◌≡◌, refl, Bool, true, false, not, List, [], ◌∷◌, map, any, All, length,
  arith, Bool-cases, inl, inr, both_true, either_false, ◌∙◌, ap,
}
use aegify.Quality.Cases.{
  Outcome, is_unscored, fits_label, Channel, all_candidates, advisory, blocking, CaseOutcomes,
  outcome_of, SavedCase, is_some, nonempty, valid_outcomes, valid_identity,
  validate_identity_and_outcomes, valid_fields, valid_case,
}
use aegify.Quality.Metrics.{counter}
use aegify.Quality.Evaluate.{filter}
use aegify.Quality.Compare.{is_scored, is_right, is_wrong}

-- A scored outcome is right or wrong.
abbrev pub is_answer : Outcome → Bool
is_answer o = not (is_unscored o)

fits-is_answer : (b : Bool) (o : Outcome) → fits_label b o ≡ true → is_answer o ≡ true
fits-is_answer b Outcome.tp h = refl
fits-is_answer b Outcome.fp h = refl
fits-is_answer b Outcome.fn h = refl
fits-is_answer b Outcome.tn h = refl
fits-is_answer b Outcome.unscored h = absurd (cc)

case_outcomes : (c : SavedCase) → valid_case c ≡ true → valid_outcomes c ≡ true
unfolding valid_case validate_identity_and_outcomes
case_outcomes c v =
    (both_true (valid_identity c) (valid_outcomes c) (both_true (valid_fields c) _ v).1).1

pub not-true : (b : Bool) → not b ≡ true → b ≡ false
not-true true h = absurd (cc)
not-true false h = refl

not-false : (b : Bool) → not b ≡ false → b ≡ true
not-false true h = refl
not-false false h = absurd (cc)

three_true :
    (f : Outcome → Bool) (h : Channel) (o : CaseOutcomes)
    → (f o.all_candidates && (f o.advisory && f o.blocking)) ≡ true
    → f (outcome_of h o) ≡ true
three_true f all_candidates o t = (both_true (f o.all_candidates) _ t).0
three_true f advisory o t =
    (both_true (f o.advisory) (f o.blocking) (both_true (f o.all_candidates) _ t).1).0
three_true f blocking o t =
    (both_true (f o.advisory) (f o.blocking) (both_true (f o.all_candidates) _ t).1).1

-- Where a valid case is scored, every channel has an answer.
pub scored-is_answer :
    (h : Channel) (c : SavedCase)
    → valid_case c ≡ true
    → is_scored c ≡ true
    → is_answer (outcome_of h c.outcomes) ≡ true
unfolding valid_outcomes
scored-is_answer h c v s =
    let r = not-true (is_some c.unscored_reason) s in
    let w = case_outcomes c v in
    fits-is_answer c.positive _
      (three_true (fits_label c.positive) h c.outcomes (both_true _ _ (rw r at w)).0)

unscored-no_answer : (o : Outcome) → is_unscored o ≡ true → is_answer o ≡ false
unscored-no_answer o h = rw h refl

-- Where it is not, none has.
pub unscored-is_answer :
    (h : Channel) (c : SavedCase)
    → valid_case c ≡ true
    → is_scored c ≡ false
    → is_answer (outcome_of h c.outcomes) ≡ false
unfolding valid_outcomes
unscored-is_answer h c v s =
    let r = not-false (is_some c.unscored_reason) s in
    let w = case_outcomes c v in
    unscored-no_answer _ (three_true is_unscored h c.outcomes (rw r at w))

pub right-is_answer : (o : Outcome) → is_right o ≡ true → is_answer o ≡ true
right-is_answer Outcome.tp h = refl
right-is_answer Outcome.fp h = refl
right-is_answer Outcome.fn h = refl
right-is_answer Outcome.tn h = refl
right-is_answer Outcome.unscored h = absurd (cc)

pub answer-wrong : (o : Outcome) → is_answer o ≡ true → is_wrong o ≡ not (is_right o)
answer-wrong Outcome.tp h = refl
answer-wrong Outcome.fp h = refl
answer-wrong Outcome.fn h = refl
answer-wrong Outcome.tn h = refl
answer-wrong Outcome.unscored h = absurd (cc)

abbrev pub one_if : Bool → ℕ
one_if true = 1
one_if false = 0

-- The right answers are the true positives and the true negatives.
abbrev pub rights : List Outcome → ℕ
rights os = (counter os).tp + (counter os).tn

pub rights_step :
    (o : Outcome) (os : List Outcome) → rights (o ∷ os) ≡ one_if (is_right o) + rights os
unfolding counter
rights_step Outcome.tp os = omega arith
rights_step Outcome.fp os = omega arith
rights_step Outcome.fn os = omega arith
rights_step Outcome.tn os = omega arith
rights_step Outcome.unscored os = omega arith

or_swap : (a b c d : Bool) → ((a || c) || (b || d)) ≡ ((a || b) || (c || d))
or_swap true b c d = refl
or_swap false true true d = refl
or_swap false true false d = refl
or_swap false false c d = refl

module _ {ℓ} {A : Type ℓ} where
  pub length-filter_step :
      (p : A → Bool) (x : A) (xs : List A)
      → length (filter p (x ∷ xs)) ≡ one_if (p x) + length (filter p xs)
  length-filter_step p x xs = elim (Bool-cases (p x)) [
    | inl e ↦ rw e (omega arith)
    | inr e ↦ rw e (omega arith)
  ]

  pub nonempty-map-filter {κ} :
      {B : Type κ} (f : A → B) (p : A → Bool) (xs : List A)
      → nonempty (map f (filter p xs)) ≡ any p xs
  nonempty-map-filter f p [] = refl
  nonempty-map-filter f p (x ∷ xs) = elim (Bool-cases (p x)) [
    | inl e ↦ rw e refl
    | inr e ↦ rw e (nonempty-map-filter f p xs)
  ]

  pub any-filter : (p q : A → Bool) (xs : List A) → any p (filter q xs) ≡ any (λ x. q x && p x) xs
  any-filter p q [] = refl
  any-filter p q (x ∷ xs) = elim (Bool-cases (q x)) [
    | inl e ↦ rw (e, any-filter p q xs) refl
    | inr e ↦ rw e (any-filter p q xs)
  ]

  pub any-or : (p q : A → Bool) (xs : List A) → (any p xs || any q xs) ≡ any (λ x. p x || q x) xs
  any-or p q [] = refl
  any-or p q (x ∷ xs) =
      or_swap (p x) (q x) (any p xs) (any q xs) ∙ ap (λ b. (p x || q x) || b) (any-or p q xs)

  pub any-false-All {κ} :
      (P : A → Type κ) (p : A → Bool) (xs : List A)
      → All (λ x. p x ≡ false → P x) xs
      → any p xs ≡ false
      → All P xs
  any-false-All P p [] f h = tt
  any-false-All P p (x ∷ xs) f h =
      let (a, b) = either_false (p x) (any p xs) h in (f.0 a, any-false-All P p xs f.1 b)

  pub All-any-false {κ} :
      (P : A → Type κ) (p : A → Bool) (xs : List A)
      → All (λ x. P x → p x ≡ false) xs
      → All P xs
      → any p xs ≡ false
  All-any-false P p [] f h = refl
  All-any-false P p (x ∷ xs) f h = rw (f.0 h.0) (All-any-false P p xs f.1 h.1)
