-- ===== src/Quality/Reports.antt =====
-- compare_owasp_reports of scanner/src/aegify/quality/comparison.py, from the pairs of cases on:
-- what two loaded reports have in common, the gate and the exit code. A JSON value that is only
-- compared is of a type with an equality test.
use aegify.Base.{
  ℕ, ◌&&◌, ◌||◌, Bool, true, false, not, String, Option, none, some, List, [], ◌∷◌, ◌++◌,
  if◌then◌else◌, str_eq, map, Result, ok, raise, Dict, lookup, keys, sorted_set, texts_eq,
}
use aegify.Models.Values.{Value}
use aegify.Quality.Cases.{
  Channel, all_candidates, advisory, blocking, CaseOutcomes, UnscoredReason, SavedCase, nonempty,
}
use aegify.Quality.Metrics.{Floats}
use aegify.Quality.Evaluate.{filter}
use aegify.Quality.Compare.{
  value_eq, case_eq, Pairs, zip_strict, is_scored, baseline_names, ChannelComparison,
  compare_channel,
}

pub record Provenance (J : Type 0) : Type 0 where
  pub corpus_digest : String
  pub ground_truth_digest : String
  pub config_digest : String
  pub implementation : Dict J
  pub evaluated_rules : List String
  pub requested_files : Value
  pub analyzed_files : Value
  pub parser_execution : String
  pub workspace_snapshot : J

pub record Report (J : Type 0) : Type 0 where
  pub language : String
  pub provenance : Provenance J
  pub analysis_status : String
  pub analysis_gaps : J
  pub unscored_findings : J
  pub evaluation_complete : Bool

pub record Loaded (J : Type 0) : Type 0 where
  pub artifact_digest : String
  pub report : Report J
  pub cases : List SavedCase
  pub case_identity_digest : String

pub data ComparisonError : Type 0 where
  different_languages not_strict : ComparisonError
  not_comparable : List String → ComparisonError

abbrev pub when_not : Bool → String → List String
when_not true key = []
when_not false key = key ∷ []

-- What a changed case shows of one side.
pub record Side : Type 0 where
  pub outcomes : CaseOutcomes
  pub unscored_reason : Option UnscoredReason
  pub matched_rules : List String
  pub matched_finding_count : Value

pub record Change : Type 0 where
  pub case : String
  pub cwe : Value
  pub positive : Bool
  pub baseline : Side
  pub candidate : Side

abbrev side_of : SavedCase → Side
side_of c = record {
  outcomes = c.outcomes;
  unscored_reason = c.unscored_reason;
  matched_rules = c.matched_rules;
  matched_finding_count = c.matched_finding_count;
}

abbrev change_of : SavedCase × SavedCase → Change
change_of p = record {
  case = p.0.case;
  cwe = p.0.cwe;
  positive = p.0.positive;
  baseline = side_of p.0;
  candidate = side_of p.1;
}

unfoldable pub lost : SavedCase × SavedCase → Bool
lost p = is_scored p.0 && not (is_scored p.1)

unfoldable pub gained : SavedCase × SavedCase → Bool
gained p = not (is_scored p.0) && is_scored p.1

unfoldable pub changed : SavedCase × SavedCase → Bool
changed p = not (case_eq p.0 p.1)

module _ {J : Type 0} (json_eq : J → J → Bool) (null : J) where
  -- `get(key)`
  abbrev pub value_at : Option J → J
  value_at none = null
  value_at (some u) = u

  unfoldable pub implementation_changes : Provenance J → Provenance J → List String
  implementation_changes left right =
      let names = sorted_set (keys left.implementation ++ keys right.implementation) in
      let differs = λ (key : String). not (
        json_eq (value_at (lookup key left.implementation))
          (value_at (lookup key right.implementation))) in
      filter differs names
      ++ when_not (texts_eq left.evaluated_rules right.evaluated_rules) "evaluated_rules"

  -- The digests that differ.
  unfoldable pub mismatches : Loaded J → Loaded J → List String
  mismatches baseline candidate =
      let left = baseline.report.provenance in
      let right = candidate.report.provenance in
      when_not (str_eq left.corpus_digest right.corpus_digest) "corpus_digest"
      ++ when_not (str_eq left.ground_truth_digest right.ground_truth_digest) "ground_truth_digest"
      ++ when_not (str_eq left.config_digest right.config_digest) "config_digest"
      ++ when_not (str_eq baseline.case_identity_digest candidate.case_identity_digest)
          "case_identity_digest"

  -- The keys of the provenance and of the report that a replay repeats.
  unfoldable pub same_run : Report J → Report J → Bool
  same_run before after =
      let left = before.provenance in
      let right = after.provenance in
      ((value_eq left.requested_files right.requested_files
          && value_eq left.analyzed_files right.analyzed_files)
        && (str_eq left.parser_execution right.parser_execution
            && json_eq left.workspace_snapshot right.workspace_snapshot))
      && (str_eq before.analysis_status after.analysis_status
          && (json_eq before.analysis_gaps after.analysis_gaps
              && json_eq before.unscored_findings after.unscored_findings))

  module _ (floats : Floats) where
    pub record Comparison : Type 0 where
      pub mode : String
      pub baseline_artifact_digest : String
      pub candidate_artifact_digest : String
      pub implementation_changes : List String
      pub identical_replay : Bool
      pub regression_free : Bool
      pub evaluation_complete : Bool
      pub exit_code : ℕ
      pub coverage_lost : List String
      pub coverage_gained : List String
      pub channels : Channel → ChannelComparison floats
      pub changed_cases : List Change

    unfoldable pub exit_code : Report J → Report J → Bool → ℕ
    exit_code before after gate_passed =
        if str_eq before.analysis_status "failed" || str_eq after.analysis_status "failed"
        then 2
        else (if not gate_passed
            then 1
            else (if not (before.evaluation_complete && after.evaluation_complete) then 3 else 0))

    unfoldable pub compare_pairs : Bool → Loaded J → Loaded J → Pairs → Comparison
    unfolding exit_code lost gained changed
    compare_pairs require_identical baseline candidate pairs =
        let before = baseline.report in
        let after = candidate.report in
        let changes = implementation_changes before.provenance after.provenance in
        let channels = λ (h : Channel). compare_channel floats h pairs in
        let changed_cases = map change_of (filter changed pairs) in
        let coverage_lost = baseline_names (filter lost pairs) in
        let identical =
          not (nonempty changes) && (not (nonempty changed_cases) && same_run before after) in
        let any_regressed =
          nonempty (channels all_candidates).regressed_cases
          || (nonempty (channels advisory).regressed_cases
              || nonempty (channels blocking).regressed_cases) in
        let regression_free = not (nonempty coverage_lost) && not any_regressed in
        record {
          mode = if require_identical then "identical" else "no_case_regressions";
          baseline_artifact_digest = baseline.artifact_digest;
          candidate_artifact_digest = candidate.artifact_digest;
          implementation_changes = changes;
          identical_replay = identical;
          regression_free = regression_free;
          evaluation_complete = before.evaluation_complete && after.evaluation_complete;
          exit_code =
              exit_code before after (if require_identical then identical else regression_free);
          coverage_lost = coverage_lost;
          coverage_gained = baseline_names (filter gained pairs);
          channels = channels;
          changed_cases = changed_cases;
        }

    unfoldable pub compare_owasp_reports :
        Bool → Loaded J → Loaded J → Result ComparisonError Comparison
    compare_owasp_reports require_identical baseline candidate =
        if not (str_eq baseline.report.language candidate.report.language)
        then raise different_languages
        else (if nonempty (mismatches baseline candidate)
            then raise (not_comparable (mismatches baseline candidate))
            else elim (zip_strict baseline.cases candidate.cases) [
              | none ↦ raise not_strict
              | some pairs ↦ ok (compare_pairs require_identical baseline candidate pairs)
            ])
