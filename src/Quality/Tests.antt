-- ===== src/Quality/Tests.antt =====
-- Two saved reports of one case, and the theorems at their evaluation and comparison
-- (scanner/src/aegify/quality/owasp.py and comparison.py).
use aegify.Base.{
  ℕ, ◌+◌, ◌≡◌, ◌↔◌, refl, Bool, true, false, String, Option, none, some, List, [], ◌∷◌, ◌==◌, arith,
  all, All, length, codes, ok, sorted_set, Dict, sorted, parts_of, is_absolute, relative_posix,
  parts_after,
}
use aegify.Models.Gaps.{ScanStatus}
use aegify.Models.Values.{Value}
use aegify.Quality.Cases.{
  Outcome, blocking, SavedCase, is_case_name, is_category, python_path, is_rule_id, valid_case,
  validate_identity_and_outcomes,
}
use aegify.Quality.Metrics.{Floats, ratio, case_metrics}
use aegify.Quality.Owasp.{
  BenchmarkCase, FindingDisposition, Finding, Scan, observe, executed_rules, row_of, observe_at,
  reason_of, relative_path, case_path,
}
use aegify.Quality.Evaluate.{Evaluation, evaluate_cases, report}
use aegify.Quality.Written.{rules_ok, evaluate_cases-validate}
use aegify.Quality.Compare.{Pairs, zip_strict}
use aegify.Quality.Reports.{Loaded, Comparison, compare_pairs, compare_owasp_reports, mismatches}
use aegify.Quality.Gate.{right_answers, compare_owasp_reports-balance}
use aegify.Quality.Exit.{Complete, Stays, compare_owasp_reports-exit_zero}

-- Floating-point results as the expressions that they are of.
data Expression : Type 0 where
  quotient correlation_of low_end high_end : List ℕ → Expression
  difference half_sum : Expression → Expression → Expression

abbrev formal : Floats
formal = record {
  Float = Expression;
  divide = λ a b. Expression.quotient (a ∷ b ∷ []);
  minus = Expression.difference;
  mean = Expression.half_sum;
  correlation = λ tp fp fn tn. Expression.correlation_of (tp ∷ fp ∷ fn ∷ tn ∷ []);
  wilson = λ a b. (Expression.low_end (a ∷ b ∷ []), Expression.high_end (a ∷ b ∷ []));
}

abbrev same_number : ℕ → ℕ → Bool
same_number m n = m == n

same_number_refl : (n : ℕ) → same_number n n ≡ true
same_number_refl n = ground arith

abbrev safe_case : Outcome → List String → ℕ → SavedCase
safe_case o rules n = record {
  case = "BenchmarkTest00001";
  file_path = "testcode/BenchmarkTest00001.py";
  category = "sqli";
  cwe = Value.nat 89;
  positive = false;
  unscored_reason = none;
  outcomes = record { all_candidates = o; advisory = o; blocking = o };
  matched_rules = rules;
  matched_finding_count = Value.nat n;
}

abbrev loaded : List SavedCase → Loaded ℕ
loaded cases = record {
  artifact_digest = "sha256:a";
  report = record {
    language = "python";
    provenance = record {
      corpus_digest = "sha256:c";
      ground_truth_digest = "sha256:g";
      config_digest = "sha256:f";
      implementation = ("scanner_version", 1) ∷ [];
      evaluated_rules = "AEG-SQL" ∷ [];
      requested_files = Value.nat 1;
      analyzed_files = Value.nat 1;
      parser_execution = "sequential_scan_files";
      workspace_snapshot = 7;
    };
    analysis_status = "completed";
    analysis_gaps = 0;
    unscored_findings = 0;
    evaluation_complete = true;
  };
  cases = cases;
  case_identity_digest = "sha256:i";
}

-- The baseline has a false alarm, which the candidate has not.
abbrev alarmed : SavedCase
alarmed = safe_case Outcome.fp ("AEG-SQL" ∷ []) 1

abbrev silent : SavedCase
silent = safe_case Outcome.tn [] 0

abbrev baseline : Loaded ℕ
baseline = loaded (alarmed ∷ [])

abbrev candidate : Loaded ℕ
candidate = loaded (silent ∷ [])

baseline_valid : all valid_case baseline.cases ≡ true
unfolding valid_case is_case_name is_category python_path sorted_set is_rule_id
baseline_valid = refl

candidate_valid : all valid_case candidate.cases ≡ true
unfolding valid_case is_case_name is_category python_path sorted_set is_rule_id
candidate_valid = refl

abbrev pairs : Pairs
pairs = (alarmed, silent) ∷ []

abbrev compared : Comparison same_number 0 formal
compared = compare_pairs same_number 0 formal false baseline candidate pairs

succeeds : compare_owasp_reports same_number 0 formal false baseline candidate ≡ ok compared
unfolding compare_owasp_reports mismatches zip_strict
succeeds = refl

compare_owasp_reports-balance_example :
    right_answers same_number 0 formal (compared.channels blocking).candidate_paired_metrics
      + length (compared.channels blocking).regressed_cases
    ≡ right_answers same_number 0 formal (compared.channels blocking).baseline_paired_metrics
      + length (compared.channels blocking).improved_cases
compare_owasp_reports-balance_example =
    compare_owasp_reports-balance same_number 0 formal false baseline candidate compared blocking
      baseline_valid candidate_valid succeeds

zips : zip_strict baseline.cases candidate.cases ≡ some pairs
unfolding zip_strict
zips = refl

compare_owasp_reports-exit_zero_example :
    (compared.exit_code ≡ 0) ↔ (Complete baseline.report candidate.report × All Stays pairs)
compare_owasp_reports-exit_zero_example =
    compare_owasp_reports-exit_zero same_number 0 formal baseline candidate compared pairs
      baseline_valid candidate_valid zips succeeds

abbrev label : BenchmarkCase
label = record {
  name = "BenchmarkTest00001";
  category = "sqli";
  positive = true;
  cwe = 89;
  language = "python";
}

abbrev finding : Finding
finding = record {
  file_path = codes "/repo/testcode/BenchmarkTest00001.py";
  rule_id = "AEG-SQL";
  cwe_id = some 89;
  disposition = FindingDisposition.blocking;
}

abbrev scan : Scan
scan = record {
  findings = finding ∷ [];
  analyzed_files = codes "testcode/BenchmarkTest00001.py" ∷ [];
  evaluated_rules = "AEG-SQL" ∷ [];
  status = ScanStatus.completed;
  analysis_gaps = [];
}

abbrev rule_cwes : Dict (Option ℕ)
rule_cwes = ("AEG-SQL", some 89) ∷ []

abbrev row : SavedCase
row = record {
  case = "BenchmarkTest00001";
  file_path = "testcode/BenchmarkTest00001.py";
  category = "sqli";
  cwe = Value.nat 89;
  positive = true;
  unscored_reason = none;
  outcomes = record { all_candidates = Outcome.tp; advisory = Outcome.fn; blocking = Outcome.tp };
  matched_rules = "AEG-SQL" ∷ [];
  matched_finding_count = Value.nat 1;
}

abbrev evaluation : Evaluation formal
evaluation =
    report formal (("AEG-SQL", 89) ∷ [])
      (record { observations = ("BenchmarkTest00001", finding ∷ []) ∷ []; unscored_findings = [] })
      (label ∷ []) (row ∷ [])

rules_named : rules_ok scan.findings ≡ true
unfolding rules_ok is_rule_id
rules_named = refl

evaluates : evaluate_cases formal (codes "/repo") rule_cwes scan (label ∷ []) ≡ ok evaluation
unfolding evaluate_cases sorted observe executed_rules row_of observe_at reason_of relative_path
    case_path sorted_set python_path ratio case_metrics parts_of is_absolute relative_posix
    parts_after
evaluates = refl

evaluate_cases-validate_example : all validate_identity_and_outcomes evaluation.cases ≡ true
evaluate_cases-validate_example =
    evaluate_cases-validate formal (codes "/repo") rule_cwes scan (label ∷ []) evaluation
      rules_named evaluates
