-- ===== src/Quality/Evaluate.antt =====
-- evaluate_cases of scanner/src/aegify/quality/owasp.py: the rows of a report and its metrics.
use aegify.Base.{
  ℕ, ◌-◌, ◌&&◌, ◌||◌, Bool, true, false, not, String, Option, none, some, List, [], ◌∷◌, ltb, ◌==◌,
  length, if◌then◌else◌, str_eq, str_mem, distinct, map, any, all, sum_by, Result, ok, raise, Dict,
  lookup, sorted, text_before, Codes,
}
use aegify.Quality.Cases.{
  Outcome, Channel, outcome_of, UnscoredReason, SavedCase, is_some, nonempty,
}
use aegify.Quality.Metrics.{Floats, Metrics, ratio, case_metrics}
use aegify.Quality.Owasp.{
  BenchmarkCase, Scan, Observed, found, observe, executed_rules, relative_path, reason_of, outcome,
  scored_as, row_of, is_completed,
}

unfoldable pub rows :
    Bool → List (Option Codes) → Dict ℕ → Observed → List BenchmarkCase → List SavedCase
rows complete analyzed executed s [] = []
rows complete analyzed executed s (c ∷ cs) =
    row_of (reason_of complete analyzed executed c) (found (lookup c.name s.observations)) c
    ∷ rows complete analyzed executed s cs

abbrev pub filter {ℓ} : {A : Type ℓ} → (A → Bool) → List A → List A
filter p [] = []
filter p (x ∷ xs) = let rest = filter p xs in if p x then x ∷ rest else rest

abbrev one_if : Bool → ℕ
one_if true = 1
one_if false = 0

abbrev insert_number : ℕ → List ℕ → List ℕ
insert_number n [] = n ∷ []
insert_number n (m ∷ ms) =
    let rest = insert_number n ms in
    if n == m then m ∷ ms else (if ltb n m then n ∷ m ∷ ms else m ∷ rest)

-- `sorted(set(numbers))`
abbrev sorted_numbers : List ℕ → List ℕ
sorted_numbers [] = []
sorted_numbers (n ∷ ns) = insert_number n (sorted_numbers ns)

abbrev pub is_reason : UnscoredReason → UnscoredReason → Bool
is_reason UnscoredReason.analysis_incomplete UnscoredReason.analysis_incomplete = true
is_reason UnscoredReason.file_not_analyzed UnscoredReason.file_not_analyzed = true
is_reason UnscoredReason.no_executed_cwe_rule UnscoredReason.no_executed_cwe_rule = true
is_reason _ _ = false

abbrev has_reason : UnscoredReason → Option UnscoredReason → Bool
has_reason r none = false
has_reason r (some q) = is_reason r q

pub data EvaluationError : Type 0 where
  bad_identities bad_language : EvaluationError

-- `len(languages) == 1 and languages <= {"python", "java"}`
abbrev one_language : List BenchmarkCase → Bool
one_language [] = false
one_language (c ∷ cs) =
    all (λ d. str_eq d.language c.language) cs && str_mem c.language ("python" ∷ "java" ∷ [])

module _ (floats : Floats) where
  -- The metrics of a channel, with the recall over all positive labels.
  abbrev ChannelMetrics : Type 0
  ChannelMetrics = Metrics floats × Option floats.Float

  pub record Evaluation : Type 0 where
    pub label_cases : ℕ
    pub positive_labels : ℕ
    pub negative_labels : ℕ
    pub scored_case_fraction : floats.Float
    pub unscored_reasons : UnscoredReason → ℕ
    pub unscored_findings : Dict ℕ
    pub metrics : Channel → ChannelMetrics
    pub by_cwe : List (ℕ × (Channel → Metrics floats))
    pub by_rule : List (String × ℕ × Metrics floats)
    pub cases : List SavedCase

  abbrev of_channel : Channel → List SavedCase → Metrics floats
  of_channel channel cases = case_metrics floats (map (λ c. outcome_of channel c.outcomes) cases)

  abbrev for_cwe : ℕ → List (ℕ × SavedCase) → List SavedCase
  for_cwe cwe cases = map (λ e. e.1) (filter (λ e. e.0 == cwe) cases)

  abbrev rule_outcome : String → SavedCase → Outcome
  rule_outcome rule c =
      scored_as c.unscored_reason (outcome c.positive (str_mem rule c.matched_rules))

  abbrev zip_rows : List BenchmarkCase → List SavedCase → List (ℕ × SavedCase)
  zip_rows [] ss = []
  zip_rows (c ∷ cs) [] = []
  zip_rows (c ∷ cs) (s ∷ ss) = (c.cwe, s) ∷ zip_rows cs ss

  -- What the report says of the rows.
  unfoldable pub report : Dict ℕ → Observed → List BenchmarkCase → List SavedCase → Evaluation
  report executed s ordered cases =
      let positives = sum_by (λ c. one_if c.positive) ordered in
      let numbered = zip_rows ordered cases in
      record {
        label_cases = length ordered;
        positive_labels = positives;
        negative_labels = length ordered - positives;
        scored_case_fraction =
            floats.divide (length cases - sum_by (λ c. one_if (is_some c.unscored_reason)) cases)
              (length cases);
        unscored_reasons = λ r. sum_by (λ c. one_if (has_reason r c.unscored_reason)) cases;
        unscored_findings = sorted (λ d e. text_before d.0 e.0) s.unscored_findings;
        metrics = λ channel.
            let m = of_channel channel cases in (m, ratio floats m.true_positives positives);
        by_cwe =
            map (λ cwe. (cwe, λ channel. of_channel channel (for_cwe cwe numbered)))
              (sorted_numbers (map (λ c. c.cwe) ordered));
        by_rule =
            map
              (λ e. (e.0, e.1, case_metrics floats (map (rule_outcome e.0) (for_cwe e.1 numbered))))
              (filter (λ e. any (λ c. c.cwe == e.1) ordered)
                (sorted (λ d e. text_before d.0 e.0) executed));
        cases = cases;
      }

  unfoldable pub evaluate_cases :
      Codes → Dict (Option ℕ) → Scan → List BenchmarkCase → Result EvaluationError Evaluation
  unfolding report rows
  evaluate_cases root rule_cwes scan cases =
      let executed = executed_rules rule_cwes scan.evaluated_rules [] in
      let complete = is_completed scan.status && not (nonempty scan.analysis_gaps) in
      let s =
        observe root executed cases scan.findings
          (record { observations = []; unscored_findings = [] }) in
      let ordered = sorted (λ c d. text_before c.name d.name) cases in
      if not (distinct (map (λ c. c.name) cases)) || not (nonempty cases)
      then raise EvaluationError.bad_identities
      else (if not (one_language cases)
          then raise EvaluationError.bad_language
          else ok (
              report executed s ordered
                (rows complete (map (relative_path root) scan.analyzed_files) executed s ordered)))
