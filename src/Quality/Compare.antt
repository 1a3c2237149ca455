-- ===== src/Quality/Compare.antt =====
-- compare_owasp_reports of scanner/src/aegify/quality/comparison.py. A JSON value that is only
-- compared is of a type with an equality test; floating-point arithmetic is that of the metrics.
use aegify.Base.{
  ℕ, suc, ◌&&◌, Bool, true, false, not, String, Option, none, some, List, [], ◌∷◌, ◌==◌, length,
  str_eq, map, Dict, lookup, insert, sorted, text_before, texts_eq,
}
use Prim.Native.String.{◌++◌ as text_append}
use aegify.Models.Values.{Value, nat, negsuc, other}
use aegify.Quality.Cases.{
  Outcome, Channel, CaseOutcomes, outcome_of, UnscoredReason, SavedCase, is_some, same_bool,
}
use aegify.Quality.Metrics.{Floats, Metrics, case_metrics}
use aegify.Quality.Evaluate.{filter, is_reason}

abbrev pub outcome_text : Outcome → String
outcome_text Outcome.tp = "tp"
outcome_text Outcome.fp = "fp"
outcome_text Outcome.fn = "fn"
outcome_text Outcome.tn = "tn"
outcome_text Outcome.unscored = "unscored"

unfoldable pub outcome_eq : Outcome → Outcome → Bool
outcome_eq a b = str_eq (outcome_text a) (outcome_text b)

abbrev pub value_eq : Value → Value → Bool
value_eq (nat m) (nat n) = m == n
value_eq (negsuc m) (negsuc n) = m == n
value_eq other other = true
value_eq _ _ = false

unfoldable pub reason_eq : Option UnscoredReason → Option UnscoredReason → Bool
reason_eq none none = true
reason_eq none (some r) = false
reason_eq (some q) none = false
reason_eq (some q) (some r) = is_reason q r

unfoldable pub outcomes_eq : CaseOutcomes → CaseOutcomes → Bool
unfolding outcome_eq
outcomes_eq o q =
    outcome_eq o.all_candidates q.all_candidates
    && (outcome_eq o.advisory q.advisory && outcome_eq o.blocking q.blocking)

-- `a == b` for two rows
unfoldable pub case_eq : SavedCase → SavedCase → Bool
unfolding reason_eq outcomes_eq
case_eq a b =
    (str_eq a.case b.case && (str_eq a.file_path b.file_path && str_eq a.category b.category))
    && ((value_eq a.cwe b.cwe && same_bool a.positive b.positive)
        && ((reason_eq a.unscored_reason b.unscored_reason && outcomes_eq a.outcomes b.outcomes)
            && (texts_eq a.matched_rules b.matched_rules
                && value_eq a.matched_finding_count b.matched_finding_count)))

abbrev pub Pairs : Type 0
Pairs = List (SavedCase × SavedCase)

-- `zip(..., strict=True)`
unfoldable pub zip_strict : List SavedCase → List SavedCase → Option Pairs
zip_strict [] [] = some []
zip_strict [] (b ∷ bs) = none
zip_strict (a ∷ rest) [] = none
zip_strict (a ∷ rest) (b ∷ bs) = elim (zip_strict rest bs) [
  | none ↦ none
  | some ps ↦ some ((a, b) ∷ ps)
]

abbrev pub is_scored : SavedCase → Bool
is_scored c = not (is_some c.unscored_reason)

abbrev pub both_scored : SavedCase × SavedCase → Bool
both_scored p = is_scored p.0 && is_scored p.1

-- `outcome in {"tp", "tn"}`
abbrev pub is_right : Outcome → Bool
is_right Outcome.tp = true
is_right Outcome.tn = true
is_right _ = false

-- `outcome in {"fn", "fp"}`
abbrev pub is_wrong : Outcome → Bool
is_wrong Outcome.fn = true
is_wrong Outcome.fp = true
is_wrong _ = false

abbrev pub regressed : Channel → SavedCase × SavedCase → Bool
regressed h p = is_right (outcome_of h p.0.outcomes) && is_wrong (outcome_of h p.1.outcomes)

abbrev pub improved : Channel → SavedCase × SavedCase → Bool
improved h p = is_wrong (outcome_of h p.0.outcomes) && is_right (outcome_of h p.1.outcomes)

abbrev pub baseline_names : Pairs → List String
baseline_names = map (λ p. p.0.case)

abbrev counted : Option ℕ → ℕ
counted none = 1
counted (some n) = suc n

-- `Counter(f"{a}->{b}" ...)`
unfoldable count_transitions : Channel → Pairs → Dict ℕ → Dict ℕ
count_transitions h [] d = d
count_transitions h (p ∷ ps) d =
    let key =
      text_append (outcome_text (outcome_of h p.0.outcomes))
        (text_append "->" (outcome_text (outcome_of h p.1.outcomes))) in
    count_transitions h ps (insert key (counted (lookup key d)) d)

module _ (floats : Floats) where
  pub record MetricDeltas : Type 0 where
    pub precision : Option floats.Float
    pub recall : Option floats.Float
    pub f1 : Option floats.Float
    pub accuracy : Option floats.Float
    pub false_positive_rate : Option floats.Float
    pub mcc : Option floats.Float

  abbrev delta : Option floats.Float → Option floats.Float → Option floats.Float
  delta none before = none
  delta (some after) none = none
  delta (some after) (some before) = some (floats.minus after before)

  unfoldable metric_deltas : Metrics floats → Metrics floats → MetricDeltas
  metric_deltas after before = record {
    precision = delta after.precision before.precision;
    recall = delta after.recall before.recall;
    f1 = delta after.f1 before.f1;
    accuracy = delta after.accuracy before.accuracy;
    false_positive_rate = delta after.false_positive_rate before.false_positive_rate;
    mcc = delta after.mcc before.mcc;
  }

  pub record ChannelComparison : Type 0 where
    pub jointly_scored_cases : ℕ
    pub baseline_paired_metrics : Metrics floats
    pub candidate_paired_metrics : Metrics floats
    pub transitions : Dict ℕ
    pub improved_cases : List String
    pub regressed_cases : List String
    pub metric_deltas : MetricDeltas

  unfoldable pub compare_channel : Channel → Pairs → ChannelComparison
  unfolding count_transitions metric_deltas
  compare_channel h pairs =
      let jointly_scored = filter both_scored pairs in
      let before = case_metrics floats (map (λ p. outcome_of h p.0.outcomes) jointly_scored) in
      let after = case_metrics floats (map (λ p. outcome_of h p.1.outcomes) jointly_scored) in
      record {
        jointly_scored_cases = length jointly_scored;
        baseline_paired_metrics = before;
        candidate_paired_metrics = after;
        transitions = sorted (λ d e. text_before d.0 e.0) (count_transitions h pairs []);
        improved_cases = baseline_names (filter (improved h) jointly_scored);
        regressed_cases = baseline_names (filter (regressed h) jointly_scored);
        metric_deltas = metric_deltas after before;
      }
