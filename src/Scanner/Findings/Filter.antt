-- ===== src/Scanner/Findings/Filter.antt =====
-- `_filter_findings` and `_finding_priority` of scanner/src/aegify/scanner/engine.py.
use aegify.Base.{
  ℕ, suc, zero, ◌-◌, Bool, true, false, not, ◌&&◌, ◌||◌, String, Option, none, some, List, [], ◌∷◌,
  ltb, ◌==◌, length, if◌then◌else◌, codes, Codes, any, map, Dict, lookup, insert, offer, sorted,
  text_before,
}
use Prim.Native.String.{◌++◌}
use aegify.Models.Gaps.{ScanResult, add_gap}
use aegify.Quality.Owasp.{FindingDisposition}
use aegify.Scanner.Findings.Records.{Confidences, Finding, Severity, severity_order, decimal}

abbrev begins : Codes → Codes → Bool
begins [] cs = true
begins (p ∷ ps) [] = false
begins (p ∷ ps) (c ∷ cs) = c == p && begins ps cs

-- `piece in text`
unfoldable pub within : Codes → Codes → Bool
within piece [] = begins piece []
within piece (c ∷ cs) = begins piece (c ∷ cs) || within piece cs

abbrev contains : String → String → Bool
contains text piece = within (codes piece) (codes text)

-- `_GENERATED_FILE_PATTERNS`
abbrev generated_file_patterns : List String
generated_file_patterns =
    "_pb.js" ∷ "_pb.d.ts" ∷ "_grpc_web_pb" ∷ ".pb.go" ∷ ".generated." ∷ "/generated/"
    ∷ "/proto/gen/" ∷ "/dist/" ∷ "/build/" ∷ "/.next/" ∷ "/__generated__/" ∷ "/node_modules/" ∷ []

-- The value of an option, or 0.
abbrev pub count_at : Option ℕ → ℕ
count_at none = 0
count_at (some n) = n

abbrev pub blocks : FindingDisposition → Bool
blocks FindingDisposition.blocking = true
blocks FindingDisposition.advisory = false

module _ (confidences : Confidences) where
  open confidences use {lower, minimum}

  abbrev F : Type 0
  F = Finding confidences

  -- The tests of the first loop.
  unfoldable pub admissible : Severity → F → Bool
  unfolding within
  admissible threshold f =
      not (ltb (severity_order threshold) (severity_order f.severity))
      && (not (lower f.confidence minimum)
          && (not (any (contains f.file_path) generated_file_patterns)
              && not (contains f.message "from '' (line )" || contains f.message "from '' (line)")))

  unfoldable pub filtered : Severity → List F → List F
  filtered threshold [] = []
  filtered threshold (f ∷ fs) =
      let rest = filtered threshold fs in if admissible threshold f then f ∷ rest else rest

  -- `f"{f.rule_id}:{f.file_path}:{f.line_start}:{f.line_end}"`
  unfoldable pub occurrence : F → String
  occurrence f =
      f.rule_id ++ ":" ++ f.file_path ++ ":" ++ decimal f.line_start ++ ":" ++ decimal f.line_end

  -- `candidate_rank > current_rank`
  unfoldable pub outranks : F → F → Bool
  outranks f g =
      if blocks f.disposition
      then (if blocks g.disposition then lower g.confidence f.confidence else true)
      else (if blocks g.disposition then false else lower g.confidence f.confidence)

  -- One turn of the second loop.
  abbrev pub see : F → Option F → Dict F → Dict F
  see f current seen = offer outranks (occurrence f) f current seen

  unfoldable pub dedupe : List F → Dict F → Dict F
  dedupe [] seen = seen
  dedupe (f ∷ fs) seen = dedupe fs (see f (lookup (occurrence f) seen) seen)

  -- Lexicographic comparison: a test that decides, or else the next one.
  abbrev then_by : Bool → Bool → Bool → Bool
  then_by below above next = if below then true else (if above then false else next)

  -- The order of `_finding_priority`.
  unfoldable pub finding_priority : F → F → Bool
  finding_priority f g =
      then_by (blocks f.disposition && not (blocks g.disposition))
        (blocks g.disposition && not (blocks f.disposition))
        (then_by (ltb (severity_order f.severity) (severity_order g.severity))
          (ltb (severity_order g.severity) (severity_order f.severity))
          (then_by (lower g.confidence f.confidence) (lower f.confidence g.confidence) (
            then_by (text_before f.file_path g.file_path) (text_before g.file_path f.file_path) (
              then_by (ltb f.line_start g.line_start) (ltb g.line_start f.line_start)
                (text_before f.rule_id g.rule_id)))))

  -- The loop that enforces the limit for each file.
  unfoldable pub cap : ℕ → List F → Dict ℕ → List F
  cap max_per_file [] counts = []
  cap max_per_file (f ∷ fs) counts =
      let n = count_at (lookup f.file_path counts) in
      elim (ltb n max_per_file) [
        | true ↦ f ∷ cap max_per_file fs (insert f.file_path (suc n) counts)
        | false ↦ cap max_per_file fs counts
      ]

  abbrev pub deduped : Severity → List F → List F
  deduped threshold findings = map (λ e. e.1) (dedupe (filtered threshold findings) [])

  -- The gap that is reported where findings were left out.
  abbrev report_omitted : ℕ → ScanResult → ScanResult
  report_omitted zero r = r
  report_omitted (suc n) r =
      add_gap
        (record {
          code = "file_finding_limit";
          stage = "reporting";
          message = "Findings omitted by the per-file output limit";
          affected_count = suc n;
        })
        r

  abbrev with_gap : ℕ → Option ScanResult → Option ScanResult
  with_gap n none = none
  with_gap n (some r) = some (report_omitted n r)

  abbrev output : ℕ → List F → Option ScanResult → List F × Option ScanResult
  output zero fs scan_result = (fs, scan_result)
  output (suc m) fs scan_result =
      let capped = cap (suc m) (sorted finding_priority fs) [] in
      (capped, with_gap (length fs - length capped) scan_result)

  -- A limit that is not positive is 0. The findings that are returned, and the scan result with its gaps.
  unfoldable pub filter_findings :
      ℕ → List F → Severity → Option ScanResult → List F × Option ScanResult
  filter_findings max_per_file findings severity_threshold scan_result =
      output max_per_file (deduped severity_threshold findings) scan_result
