-- ===== src/Models/Tests.antt =====
-- Runs of `add_gap` (scanner/src/aegify/models.py), and its theorem at one.
use aegify.Base.{ℕ, ◌+◌, ◌≤◌, ◌≡◌, ◌≢◌, refl, String, List, [], ◌∷◌, arith, sum_by}
use aegify.Models.Gaps.{
  ScanStatus, ScanResult, AnalysisGap, aggregate, add_gap, add_gaps, count_for, entry_for,
  add_gaps-aggregates,
}

abbrev gap : String → ℕ → AnalysisGap
gap code n = record { code = code; stage = "parse"; message = "files left out"; affected_count = n }

abbrev reports : List AnalysisGap
reports = gap "parse_failed" 2 ∷ gap "too_large" 1 ∷ gap "parse_failed" 3 ∷ []

abbrev clean : ScanResult
clean = record { analysis_gaps = []; status = ScanStatus.completed }

aggregated : add_gaps reports clean ≡ record {
  analysis_gaps = gap "parse_failed" 5 ∷ gap "too_large" 1 ∷ [];
  status = ScanStatus.partial;
}
unfolding add_gaps add_gap aggregate
aggregated = refl

add_gaps-aggregates_example :
    (sum_by (entry_for "parse_failed" "parse") (add_gaps reports clean).analysis_gaps ≤ 1)
    × (sum_by (count_for "parse_failed" "parse") (add_gaps reports clean).analysis_gaps
        ≡ 0 + sum_by (count_for "parse_failed" "parse") reports)
    × (ScanStatus.completed ≡ ScanStatus.failed
        → (add_gaps reports clean).status ≡ ScanStatus.failed)
    × (ScanStatus.completed ≢ ScanStatus.failed
        → reports ≢ []
        → (add_gaps reports clean).status ≡ ScanStatus.partial)
add_gaps-aggregates_example =
    add_gaps-aggregates "parse_failed" "parse" reports clean (λ code stage. omega arith)
