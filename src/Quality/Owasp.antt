-- ===== src/Quality/Owasp.antt =====
-- scanner/src/aegify/quality/owasp.py: BenchmarkCase, the relative path of a finding, and
-- evaluate_cases, without the fixed texts of the report.
use aegify.Base.{
  ℕ, suc, ◌||◌, Bool, true, false, not, String, Option, none, some, List, [], ◌∷◌, ◌++◌, ◌==◌,
  codes, length, if◌then◌else◌, str_eq, map, any, Dict, lookup, insert, sorted_set, Codes, codes_eq,
  parts_of, root_of, is_absolute, dot_dot, part_mem, parts_after, relative_posix,
}
use aegify.Models.Gaps.{ScanStatus, AnalysisGap}
use aegify.Models.Values.{Value}
use aegify.Quality.Cases.{
  Outcome, UnscoredReason, SavedCase, is_some, python_path, java_path, nonempty,
}

pub record BenchmarkCase : Type 0 where
  pub name : String
  pub category : String
  pub positive : Bool
  pub cwe : ℕ
  pub language : String

unfoldable pub case_path : BenchmarkCase → String
case_path c = if str_eq c.language "java" then java_path c.name else python_path c.name

-- `value.replace("\\", "/")`
abbrev forward : Codes → Codes
forward = map (λ c. if c == b'\\' then b'/' else c)

-- The path that is left of relative parts.
unfoldable relative_parts : List Codes → Option Codes
relative_parts [] = none
relative_parts (p ∷ ps) = if any (λ c. c == b':') p then none else some (relative_posix (p ∷ ps))

abbrev below : Codes → Codes → Option (List Codes)
below root value =
    if codes_eq (root_of root) (root_of value)
    then parts_after (parts_of root) (parts_of value)
    else none

unfoldable and_then : Option (List Codes) → Option Codes
unfolding relative_parts
and_then none = none
and_then (some ps) = relative_parts ps

unfoldable pub relative_path : Codes → Codes → Option Codes
unfolding and_then
relative_path root value =
    let path = forward value in
    if part_mem dot_dot (parts_of path)
    then none
    else (if is_absolute path then and_then (below root path) else and_then (some (parts_of path)))

pub data FindingDisposition : Type 0 where
  advisory blocking : FindingDisposition

-- What an evaluation reads of a finding.
pub record Finding : Type 0 where
  pub file_path : Codes
  pub rule_id : String
  pub cwe_id : Option ℕ
  pub disposition : FindingDisposition

abbrev pub is_advisory : Finding → Bool
is_advisory f = elim (f.disposition) [
  | FindingDisposition.advisory ↦ true
  | FindingDisposition.blocking ↦ false
]

abbrev pub blocks_ci : Finding → Bool
blocks_ci f = not (is_advisory f)

-- What an evaluation reads of a scan.
pub record Scan : Type 0 where
  pub findings : List Finding
  pub analyzed_files : List Codes
  pub evaluated_rules : List String
  pub status : ScanStatus
  pub analysis_gaps : List AnalysisGap

pub record Observed : Type 0 where
  pub observations : Dict (List Finding)
  pub unscored_findings : Dict ℕ

abbrev pub found : Option (List Finding) → List Finding
found none = []
found (some fs) = fs

abbrev count_of : Option ℕ → ℕ
count_of none = 0
count_of (some n) = n

-- `counter[key] += 1`
abbrev increment : String → Dict ℕ → Dict ℕ
increment key d = insert key (suc (count_of (lookup key d))) d

-- `{case.file_path: case for case in cases}.get(path)`
unfoldable case_at : Option Codes → List BenchmarkCase → Option BenchmarkCase
case_at none cs = none
case_at (some p) [] = none
case_at (some p) (c ∷ cs) =
    let rest = case_at (some p) cs in
    if is_some rest then rest else (if codes_eq p (codes (case_path c)) then some c else none)

abbrev pub same_number : Option ℕ → Option ℕ → Bool
same_number none none = true
same_number none (some n) = false
same_number (some m) none = false
same_number (some m) (some n) = m == n

abbrev unscored_as : String → Observed → Observed
unscored_as key s = record s { unscored_findings = increment key s.unscored_findings }

unfoldable pub observe_at : Dict ℕ → Finding → Option BenchmarkCase → Observed → Observed
observe_at executed f none s = unscored_as "outside_labeled_case" s
observe_at executed f (some c) s =
    let cwe = lookup f.rule_id executed in
    if not (is_some cwe) || not (same_number cwe f.cwe_id)
    then unscored_as "unverified_rule_cwe" s
    else (if not (same_number f.cwe_id (some c.cwe))
        then unscored_as "different_cwe" s
        else record s {
          observations =
              insert c.name (found (lookup c.name s.observations) ++ f ∷ []) s.observations;
        })

-- The loop over the findings.
unfoldable pub observe : Codes → Dict ℕ → List BenchmarkCase → List Finding → Observed → Observed
unfolding case_at
observe root executed cases [] s = s
observe root executed cases (f ∷ fs) s =
    observe root executed cases fs
      (observe_at executed f (case_at (relative_path root f.file_path) cases) s)

-- The executed rules, with the CWE that each declares.
unfoldable pub executed_rules : Dict (Option ℕ) → List String → Dict ℕ → Dict ℕ
executed_rules rule_cwes [] d = d
executed_rules rule_cwes (r ∷ rs) d = executed_rules rule_cwes rs (add (lookup r rule_cwes))
  where
    add : Option (Option ℕ) → Dict ℕ
    add none = d
    add (some none) = d
    add (some (some n)) = insert r n d

abbrev path_mem : Codes → List (Option Codes) → Bool
path_mem p [] = false
path_mem p (none ∷ qs) = path_mem p qs
path_mem p (some q ∷ qs) = codes_eq p q || path_mem p qs

unfoldable pub reason_of :
    Bool → List (Option Codes) → Dict ℕ → BenchmarkCase → Option UnscoredReason
reason_of complete analyzed executed c =
    if not complete
    then some UnscoredReason.analysis_incomplete
    else (if not (path_mem (codes (case_path c)) analyzed)
        then some UnscoredReason.file_not_analyzed
        else (if not (any (λ e. e.1 == c.cwe) executed)
            then some UnscoredReason.no_executed_cwe_rule
            else none))

-- `_outcome`
abbrev pub outcome : Bool → Bool → Outcome
outcome true true = Outcome.tp
outcome false true = Outcome.fp
outcome true false = Outcome.fn
outcome false false = Outcome.tn

abbrev pub scored_as : Option UnscoredReason → Outcome → Outcome
scored_as none o = o
scored_as (some r) o = Outcome.unscored

unfoldable pub row_of : Option UnscoredReason → List Finding → BenchmarkCase → SavedCase
row_of reason matches c = record {
  case = c.name;
  file_path = case_path c;
  category = c.category;
  cwe = Value.nat c.cwe;
  positive = c.positive;
  unscored_reason = reason;
  outcomes = record {
    all_candidates = scored_as reason (outcome c.positive (nonempty matches));
    advisory = scored_as reason (outcome c.positive (any is_advisory matches));
    blocking = scored_as reason (outcome c.positive (any blocks_ci matches));
  };
  matched_rules = sorted_set (map (λ f. f.rule_id) matches);
  matched_finding_count = Value.nat (length matches);
}

abbrev pub is_completed : ScanStatus → Bool
is_completed ScanStatus.completed = true
is_completed _ = false
