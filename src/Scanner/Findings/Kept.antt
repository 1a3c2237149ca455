-- ===== src/Scanner/Findings/Kept.antt =====
-- What `_filter_findings` of scanner/src/aegify/scanner/engine.py returns of the findings of a scan.
use aegify.Base.{
  ℕ, suc, zero, ◌≤◌, ◌<◌, ◌≡◌, ◌⊎◌, true, false, Option, List, [], inl, inr, arith, Member, sorted,
  sorted-Member, String,
}
use aegify.Models.Gaps.{ScanResult}
use aegify.Scanner.Findings.Records.{Confidences, Finding, Severity}
use aegify.Scanner.Findings.Filter.{
  admissible, occurrence, outranks, deduped, finding_priority, filter_findings,
}
use aegify.Scanner.Findings.Represented.{deduped-represents}
use aegify.Scanner.Findings.Capped.{of_file, cap_bound, cap_full}

module _ (confidences : Confidences) where
  -- A finding is returned, or the limit of its file is reached by others.
  abbrev pub ReturnedOrFull : ℕ → Finding confidences → List (Finding confidences) → Type 0
  ReturnedOrFull max_per_file g out =
      Member g out ⊎ ((0 < max_per_file) × (of_file confidences g.file_path out ≡ max_per_file))

  output-returns :
      (max_per_file : ℕ) (findings : List (Finding confidences)) (threshold : Severity)
      (scan_result : Option ScanResult) (g : Finding confidences)
      → Member g (deduped confidences threshold findings)
      → ReturnedOrFull max_per_file g
          (filter_findings confidences max_per_file findings threshold scan_result).0
  unfolding filter_findings
  output-returns zero findings threshold scan_result g m = inl m
  output-returns (suc n) findings threshold scan_result g m =
      elim (cap_full confidences (suc n)
        (sorted (finding_priority confidences) (deduped confidences threshold findings)) [] g
        (sorted-Member (finding_priority confidences) (deduped confidences threshold findings) g m)
        (omega arith)) [ inl k ↦ inl k | inr k ↦ inr (omega arith, omega arith) ]

  -- For every finding that passes the tests of severity, confidence, generated files and messages,
  -- there is a finding of the same occurrence that it does not outrank (by blocking first and then
  -- by confidence) and that is returned, unless the limit for its file is positive and as many
  -- findings of its file are returned as the limit allows.
  pub filter_findings-represents :
      (max_per_file : ℕ) (findings : List (Finding confidences)) (threshold : Severity)
      (scan_result : Option ScanResult) (f : Finding confidences)
      → Member f findings
      → admissible confidences threshold f ≡ true
      → (g : Finding confidences) × (occurrence confidences g ≡ occurrence confidences f)
        × (outranks confidences f g ≡ false)
        × ReturnedOrFull max_per_file g
            (filter_findings confidences max_per_file findings threshold scan_result).0
  filter_findings-represents max_per_file findings threshold scan_result f m a =
      let (g, k, same, rank) = deduped-represents confidences threshold findings f m a in
      (g, same, rank, output-returns max_per_file findings threshold scan_result g k)

  -- Where the limit of findings for each file is positive, no file has more findings returned.
  pub filter_findings-limit :
      (max_per_file : ℕ) (findings : List (Finding confidences)) (threshold : Severity)
      (scan_result : Option ScanResult) (path : String)
      → 0 < max_per_file
      → of_file confidences path
          (filter_findings confidences max_per_file findings threshold scan_result).0
        ≤ max_per_file
  unfolding filter_findings
  filter_findings-limit zero findings threshold scan_result path p = absurd (omega arith)
  filter_findings-limit (suc n) findings threshold scan_result path p = omega (
    arith,
    cap_bound confidences (suc n)
        (sorted (finding_priority confidences) (deduped confidences threshold findings)) [] path
        (omega arith),
  )
