-- ===== src/Scanner/Findings/Tests.antt =====
-- A scan with a duplicate, a low confidence and two findings too many, and the theorems of
-- `_filter_findings` (scanner/src/aegify/scanner/engine.py) at it.
use aegify.Base.{ℕ, ◌≤◌, ◌≡◌, refl, true, false, none, List, [], ◌∷◌, ltb, arith, here, sorted}
use aegify.Quality.Owasp.{FindingDisposition}
use aegify.Scanner.Findings.Records.{Confidences, Finding, Severity, decimal}
use aegify.Scanner.Findings.Filter.{
  admissible, filtered, occurrence, outranks, dedupe, finding_priority, cap, filter_findings,
}
use aegify.Scanner.Findings.Capped.{of_file}
use aegify.Scanner.Findings.Kept.{ReturnedOrFull, filter_findings-represents, filter_findings-limit}

irreflexive : (a : ℕ) → ltb a a ≡ false
irreflexive a = ground arith

trans : (a b c : ℕ) → ltb a b ≡ true → ltb b c ≡ true → ltb a c ≡ true
trans a b c p q = ground arith

-- Confidences in hundredths.
abbrev hundredths : Confidences
hundredths = record {
  Confidence = ℕ;
  lower = ltb;
  minimum = 30;
  lower_irreflexive = irreflexive;
  lower_trans = trans;
}

abbrev finding : ℕ → ℕ → FindingDisposition → Finding hundredths
finding confidence line disposition = record {
  rule_id = "AEG-SQL";
  severity = Severity.high;
  confidence = confidence;
  disposition = disposition;
  file_path = "app/db.py";
  line_start = line;
  line_end = line;
  message = "";
}

abbrev findings : List (Finding hundredths)
findings =
    finding 60 12 FindingDisposition.advisory
    ∷ finding 20 13 FindingDisposition.advisory
    ∷ finding 80 12 FindingDisposition.advisory
    ∷ finding 40 14 FindingDisposition.blocking
    ∷ finding 70 15 FindingDisposition.advisory
    ∷ []

abbrev kept : List (Finding hundredths)
kept = finding 40 14 FindingDisposition.blocking ∷ finding 80 12 FindingDisposition.advisory ∷ []

filters : (filter_findings hundredths 2 findings Severity.medium none).0 ≡ kept
unfolding filter_findings cap sorted dedupe filtered admissible occurrence decimal outranks
    finding_priority
filters = refl

lines_printed : decimal 2048 ≡ "2048"
unfolding decimal
lines_printed = refl

filter_findings-limit_example :
    of_file hundredths "app/db.py" (filter_findings hundredths 2 findings Severity.medium none).0
    ≤ 2
filter_findings-limit_example =
    filter_findings-limit hundredths 2 findings Severity.medium none "app/db.py" (omega arith)

abbrev first : Finding hundredths
first = finding 60 12 FindingDisposition.advisory

first_admissible : admissible hundredths Severity.medium first ≡ true
unfolding admissible
first_admissible = refl

filter_findings-represents_example :
    (g : Finding hundredths) × (occurrence hundredths g ≡ occurrence hundredths first)
    × (outranks hundredths first g ≡ false)
    × ReturnedOrFull hundredths 2 g (filter_findings hundredths 2 findings Severity.medium none).0
filter_findings-represents_example =
    filter_findings-represents hundredths 2 findings Severity.medium none first (here refl)
      first_admissible
