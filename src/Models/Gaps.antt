-- ===== src/Models/Gaps.antt =====
-- `ScanResult.add_gap` of scanner/src/aegify/models.py: the account of what an analysis missed.
use aegify.Base.{
  ℕ, ◌+◌, ◌≤◌, ◌≡◌, ◌≢◌, refl, ap, Bool, false, ◌&&◌, String, List, [], ◌∷◌, arith, sum_by, eq_iff,
  if◌then◌else◌, str_eq, Bool-cases, inl, inr,
}
use aegify.Models.Receipts.{one_if}

pub data ScanStatus : Type 0 where
  pending running completed partial failed : ScanStatus

-- The count is at least 0, as its field has it; `add_gap` is taken to be given such counts.
pub record AnalysisGap : Type 0 where
  pub code : String
  pub stage : String
  pub message : String
  pub affected_count : ℕ

-- The fields of a `ScanResult` that `add_gap` reads or changes.
pub record ScanResult : Type 0 where
  pub analysis_gaps : List AnalysisGap
  pub status : ScanStatus

abbrev pub is_for : String → String → AnalysisGap → Bool
is_for code stage gap = str_eq gap.code code && str_eq gap.stage stage

-- The loop, which ends at the first gap of the category, and its `else`.
unfoldable pub aggregate : AnalysisGap → List AnalysisGap → List AnalysisGap
aggregate report [] = report ∷ []
aggregate report (gap ∷ gaps) =
    let rest = aggregate report gaps in
    if is_for report.code report.stage gap
    then record gap { affected_count = gap.affected_count + report.affected_count } ∷ gaps
    else gap ∷ rest

abbrev pub mark_partial : ScanStatus → ScanStatus
mark_partial pending = partial
mark_partial running = partial
mark_partial completed = partial
mark_partial partial = partial
mark_partial failed = failed

unfoldable pub add_gap : AnalysisGap → ScanResult → ScanResult
add_gap report r = record {
  analysis_gaps = aggregate report r.analysis_gaps;
  status = mark_partial r.status;
}

unfoldable pub add_gaps : List AnalysisGap → ScanResult → ScanResult
add_gaps [] r = r
add_gaps (report ∷ reports) r = add_gaps reports (add_gap report r)

-- What a category is reported with.
abbrev pub count_for : String → String → AnalysisGap → ℕ
count_for code stage gap = if is_for code stage gap then gap.affected_count else 0

abbrev pub entry_for : String → String → AnalysisGap → ℕ
entry_for code stage gap = one_if (is_for code stage gap)

aggregate-count :
    (c s : String) (report : AnalysisGap) (gaps : List AnalysisGap)
    → sum_by (count_for c s) (aggregate report gaps)
      ≡ sum_by (count_for c s) gaps + count_for c s report
unfolding aggregate
aggregate-count c s report [] = omega arith
aggregate-count c s report (gap ∷ gaps) = ground (
  arith,
  eq_iff gap.code report.code,
  eq_iff gap.stage report.stage,
  eq_iff gap.code c,
  eq_iff gap.stage s,
  eq_iff report.code c,
  eq_iff report.stage s,
  aggregate-count c s report gaps,
)

aggregate-other :
    (c s : String) (report : AnalysisGap) (gaps : List AnalysisGap)
    → is_for c s report ≡ false
    → sum_by (entry_for c s) (aggregate report gaps) ≡ sum_by (entry_for c s) gaps
unfolding aggregate
aggregate-other c s report [] h = ground arith
aggregate-other c s report (gap ∷ gaps) h =
    let rest = aggregate-other c s report gaps h in ground arith

aggregate-entry :
    (c s : String) (report : AnalysisGap) (gaps : List AnalysisGap)
    → sum_by (entry_for c s) gaps ≤ 1
    → sum_by (entry_for c s) (aggregate report gaps) ≤ 1
unfolding aggregate
aggregate-entry c s report [] h = ground arith
aggregate-entry c s report (gap ∷ gaps) h =
    elim (Bool-cases (is_for report.code report.stage gap)) [
      | inl e ↦ rw e h
      | inr e ↦ elim (Bool-cases (is_for c s gap)) [
        | inl g ↦
            let apart : is_for c s report ≡ false = ground (
              arith,
              eq_iff gap.code c,
              eq_iff gap.stage s,
              eq_iff report.code c,
              eq_iff report.stage s,
              eq_iff gap.code report.code,
              eq_iff gap.stage report.stage,
            ) in
            let rest = aggregate-other c s report gaps apart in rw (e, g, rest) (ground arith)
        | inr g ↦
            let rest = aggregate-entry c s report gaps (ground arith) in rw (e, g) (ground arith)
      ]
    ]

marked : (s : ScanStatus) → s ≢ failed → mark_partial s ≡ partial
marked pending h = refl
marked running h = refl
marked completed h = refl
marked partial h = refl
marked failed h = absurd (h refl)

still_partial :
    (reports : List AnalysisGap) (r : ScanResult)
    → r.status ≡ partial
    → (add_gaps reports r).status ≡ partial
unfolding add_gaps add_gap
still_partial [] r h = h
still_partial (report ∷ reports) r h = still_partial reports (add_gap report r) (ap mark_partial h)

-- After any reports on a scan whose gaps have a category once: every category still stands once,
-- with the sum of what was reported for it before and now; and the status is failed if it was, and
-- otherwise partial as soon as there was a report.
pub add_gaps-aggregates :
    (c s : String) (reports : List AnalysisGap) (r : ScanResult)
    → ((code stage : String) → sum_by (entry_for code stage) r.analysis_gaps ≤ 1)
    → (sum_by (entry_for c s) (add_gaps reports r).analysis_gaps ≤ 1)
      × (sum_by (count_for c s) (add_gaps reports r).analysis_gaps
          ≡ sum_by (count_for c s) r.analysis_gaps + sum_by (count_for c s) reports)
      × (r.status ≡ failed → (add_gaps reports r).status ≡ failed)
      × (r.status ≢ failed → reports ≢ [] → (add_gaps reports r).status ≡ partial)
unfolding add_gaps add_gap
add_gaps-aggregates c s [] r h = (h c s, omega arith, λ e. e, λ e n. absurd (n refl))
add_gaps-aggregates c s (report ∷ reports) r h =
    let (once, total, stays, partly) =
      add_gaps-aggregates c s reports (add_gap report r)
        (λ code stage. aggregate-entry code stage report r.analysis_gaps (h code stage)) in
    (
      once,
      omega (arith, total, aggregate-count c s report r.analysis_gaps),
      λ e. stays (ap mark_partial e),
      λ e n. still_partial reports (add_gap report r) (marked r.status e),
    )
