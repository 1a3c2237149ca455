-- ===== src/Scanner/Findings/Records.antt =====
-- Finding and Severity of scanner/src/aegify/models.py, as `_filter_findings` of
-- scanner/src/aegify/scanner/engine.py reads them. A confidence is of a type with an order: the code
-- only compares floats.
use aegify.Base.{ℕ, suc, zero, ◌/◌, ◌%◌, ◌≡◌, Bool, true, false, String, ltb}
use Prim.Native.String.{◌++◌}
use aegify.Quality.Owasp.{FindingDisposition}

-- The comparison of confidences, none of which is NaN.
pub record Confidences : Type 1 where
  pub Confidence : Type 0
  pub lower : Confidence → Confidence → Bool
  -- 0.3
  pub minimum : Confidence
  pub lower_irreflexive : (a : Confidence) → lower a a ≡ false
  pub lower_trans : (a b c : Confidence) → lower a b ≡ true → lower b c ≡ true → lower a c ≡ true

pub data Severity : Type 0 where
  critical high medium low : Severity

-- `SEVERITY_ORDER`, which has every severity.
abbrev pub severity_order : Severity → ℕ
severity_order critical = 0
severity_order high = 1
severity_order medium = 2
severity_order low = 3

module _ (confidences : Confidences) where
  pub record Finding : Type 0 where
    pub rule_id : String
    pub severity : Severity
    pub confidence : confidences.Confidence
    pub disposition : FindingDisposition
    pub file_path : String
    pub line_start : ℕ
    pub line_end : ℕ
    pub message : String

abbrev digit : ℕ → String
digit zero = "0"
digit (suc zero) = "1"
digit (suc (suc zero)) = "2"
digit (suc (suc (suc zero))) = "3"
digit (suc (suc (suc (suc zero)))) = "4"
digit (suc (suc (suc (suc (suc zero))))) = "5"
digit (suc (suc (suc (suc (suc (suc zero)))))) = "6"
digit (suc (suc (suc (suc (suc (suc (suc zero))))))) = "7"
digit (suc (suc (suc (suc (suc (suc (suc (suc zero)))))))) = "8"
digit (suc (suc (suc (suc (suc (suc (suc (suc (suc n))))))))) = "9"

-- The digits of n, whose number is at most the fuel n + 1.
unfoldable decimal_on : ℕ → ℕ → String
decimal_on zero n = ""
decimal_on (suc fuel) n = elim (ltb n 10) [
  | true ↦ digit n
  | false ↦ decimal_on fuel (n / 10) ++ digit (n % 10)
]

-- `str` of a line number
unfoldable pub decimal : ℕ → String
unfolding decimal_on
decimal n = decimal_on (suc n) n
