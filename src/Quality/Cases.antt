-- ===== src/Quality/Cases.antt =====
-- CaseOutcomes and SavedCase of scanner/src/aegify/quality/comparison.py, with their field
-- constraints and the model validator.
use aegify.Base.{
  ℕ, Bool, true, false, not, ◌&&◌, ◌||◌, String, Option, none, some, List, [], ◌∷◌, leb, ◌==◌,
  codes, length, if◌then◌else◌, str_eq, sorted_set, texts_eq, all,
}
use Prim.Native.String.{◌++◌}
use aegify.Models.Values.{Value, in_range, is_nat, number}

pub data Outcome : Type 0 where
  tp fp fn tn unscored : Outcome

abbrev pub is_unscored : Outcome → Bool
is_unscored tp = false
is_unscored fp = false
is_unscored fn = false
is_unscored tn = false
is_unscored unscored = true

-- `outcome in {"tp", "fp"}`
abbrev pub is_hit : Outcome → Bool
is_hit tp = true
is_hit fp = true
is_hit fn = false
is_hit tn = false
is_hit unscored = false

-- `outcome in {"tp", "fn"}` for a positive label, `{"fp", "tn"}` for a negative one
abbrev pub fits_label : Bool → Outcome → Bool
fits_label b tp = b
fits_label b fp = not b
fits_label b fn = b
fits_label b tn = not b
fits_label b unscored = false

pub data Channel : Type 0 where
  all_candidates advisory blocking : Channel

pub record CaseOutcomes : Type 0 where
  pub all_candidates : Outcome
  pub advisory : Outcome
  pub blocking : Outcome

-- `outcomes[channel]`
abbrev pub outcome_of : Channel → CaseOutcomes → Outcome
outcome_of all_candidates o = o.all_candidates
outcome_of advisory o = o.advisory
outcome_of blocking o = o.blocking

pub data UnscoredReason : Type 0 where
  analysis_incomplete file_not_analyzed no_executed_cwe_rule : UnscoredReason

pub record SavedCase : Type 0 where
  pub case : String
  pub file_path : String
  pub category : String
  pub cwe : Value
  pub positive : Bool
  pub unscored_reason : Option UnscoredReason
  pub outcomes : CaseOutcomes
  pub matched_rules : List String
  pub matched_finding_count : Value

abbrev pub is_some {ℓ} : {A : Type ℓ} → Option A → Bool
is_some none = false
is_some (some a) = true

abbrev is_digit : ℕ → Bool
is_digit c = leb b'0' c && leb c b'9'

abbrev is_lower : ℕ → Bool
is_lower c = leb b'a' c && leb c b'z'

abbrev is_upper : ℕ → Bool
is_upper c = leb b'A' c && leb c b'Z'

-- What follows a literal prefix, where the text has it.
abbrev after_prefix : List ℕ → List ℕ → Option (List ℕ)
after_prefix [] cs = some cs
after_prefix (p ∷ ps) [] = none
after_prefix (p ∷ ps) (c ∷ cs) = if c == p then after_prefix ps cs else none

-- Every code point passes a test, and their number is within bounds.
abbrev run_of : (ℕ → Bool) → ℕ → ℕ → List ℕ → Bool
run_of p low high cs = all p cs && (leb low (length cs) && leb (length cs) high)

abbrev follows : Option (List ℕ) → (List ℕ → Bool) → Bool
follows none p = false
follows (some cs) p = p cs

-- `^BenchmarkTest[0-9]{5,8}$`
unfoldable pub is_case_name : String → Bool
is_case_name s = follows (after_prefix (codes "BenchmarkTest") (codes s)) (run_of is_digit 5 8)

abbrev category_tail : List ℕ → Bool
category_tail = run_of (λ c. is_lower c || (is_digit c || (c == b'_' || c == b'-'))) 0 63

-- `^[a-z][a-z0-9_-]{0,63}$`
unfoldable pub is_category : String → Bool
is_category s = starts (codes s)
  where
    starts : List ℕ → Bool
    starts [] = false
    starts (c ∷ cs) = is_lower c && category_tail cs

-- `AEG-[A-Z0-9-]+`
unfoldable pub is_rule_id : String → Bool
is_rule_id s =
    follows (after_prefix (codes "AEG-") (codes s))
      (λ cs. all (λ c. is_upper c || (is_digit c || c == b'-')) cs && leb 1 (length cs))

unfoldable pub python_path : String → String
python_path name = "testcode/" ++ name ++ ".py"

unfoldable pub java_path : String → String
java_path name = "src/main/java/org/owasp/benchmark/testcode/" ++ name ++ ".java"

-- The constraints of the fields.
unfoldable pub valid_fields : SavedCase → Bool
valid_fields c =
    is_case_name c.case
    && (is_category c.category
        && (in_range 1 99999 c.cwe
            && (leb (length c.matched_rules) 10000 && is_nat c.matched_finding_count)))

abbrev pub nonempty {ℓ} : {A : Type ℓ} → List A → Bool
nonempty [] = false
nonempty (x ∷ xs) = true

abbrev pub same_bool : Bool → Bool → Bool
same_bool true b = b
same_bool false b = not b

-- The checks of the path, of the rules and of their number.
unfoldable pub valid_identity : SavedCase → Bool
valid_identity c =
    (str_eq c.file_path (python_path c.case) || str_eq c.file_path (java_path c.case))
    && ((texts_eq c.matched_rules (sorted_set c.matched_rules) && all is_rule_id c.matched_rules)
        && (leb (length c.matched_rules) (number c.matched_finding_count)
            && same_bool (nonempty c.matched_rules) (not (number c.matched_finding_count == 0))))

-- The checks of the outcomes.
unfoldable pub valid_outcomes : SavedCase → Bool
valid_outcomes c =
    let o = c.outcomes in
    if is_some c.unscored_reason
    then is_unscored o.all_candidates && (is_unscored o.advisory && is_unscored o.blocking)
    else (fits_label c.positive o.all_candidates
        && (fits_label c.positive o.advisory && fits_label c.positive o.blocking))
      && (same_bool (is_hit o.all_candidates) (nonempty c.matched_rules)
          && (is_hit o.all_candidates || not (is_hit o.advisory || is_hit o.blocking)))

unfoldable pub validate_identity_and_outcomes : SavedCase → Bool
unfolding valid_identity valid_outcomes
validate_identity_and_outcomes c = valid_identity c && valid_outcomes c

unfoldable pub valid_case : SavedCase → Bool
unfolding valid_fields validate_identity_and_outcomes
valid_case c = valid_fields c && validate_identity_and_outcomes c
