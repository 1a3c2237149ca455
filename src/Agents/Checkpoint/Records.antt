-- ===== src/Agents/Checkpoint/Records.antt =====
-- `_Record` and `_State` of scanner/src/aegify/agents/checkpoint.py, and the check of a response.
use aegify.Base.{
  ℕ, Bool, true, false, not, ◌&&◌, ◌||◌, String, Option, none, some, List, ltb, leb, ◌==◌, length,
  all, if◌then◌else◌, str_eq, codes, Result, ok, raise, ◌>>◌, raise_if,
}
use aegify.Models.Values.{is_digest}
use aegify.Models.Receipts.{TokenUsage, valid_usage, valid_receipt, is_some}
use aegify.Llm.Redaction.{Json, Expressions, redact}
use aegify.Agents.Exploration.Turns.{Turn, validate_turn}

pub data RecordState : Type 0 where
  pending completed error : RecordState

pub record Record (R : Type 0) : Type 0 where
  pub request_digest : String
  pub state : RecordState
  pub response : Option R
  pub error_code : String

abbrev pub is_pending : RecordState → Bool
is_pending pending = true
is_pending completed = false
is_pending error = false

abbrev is_completed : RecordState → Bool
is_completed pending = false
is_completed completed = true
is_completed error = false

abbrev pub is_error : RecordState → Bool
is_error pending = false
is_error completed = false
is_error error = true

abbrev same : Bool → Bool → Bool
same true b = b
same false b = not b

abbrev is_code_letter : ℕ → Bool
is_code_letter c = leb b'a' c && leb c b'z' || c == b'_'

-- `^[a-z_]{low,80}$`
unfoldable pub is_error_code : ℕ → String → Bool
is_error_code low s =
    let n = length (codes s) in leb low n && leb n 80 && all is_code_letter (codes s)

module _ {R : Type 0} where
  -- `consistent_state`
  unfoldable pub consistent_state : Record R → Bool
  consistent_state r =
      same (is_completed r.state) (is_some r.response)
      && same (is_error r.state) (not (str_eq r.error_code ""))

  unfoldable pub valid_record : Record R → Bool
  valid_record r = is_digest r.request_digest && is_error_code 0 r.error_code && consistent_state r

pub record State (R : Type 0) : Type 0 where
  pub identity_digest : String
  pub records : List (Record R)
  pub usage : Option TokenUsage

-- `TokenUsage.model_validate`, which validates the receipts too.
unfoldable pub valid_document : TokenUsage → Bool
valid_document u = valid_usage u && all valid_receipt u.calls

abbrev valid_optional_usage : Option TokenUsage → Bool
valid_optional_usage none = true
valid_optional_usage (some u) = valid_document u

module _ {R : Type 0} where
  -- `_State.model_validate`
  unfoldable pub valid_state : State R → Bool
  valid_state s =
      is_digest s.identity_digest
      && leb (length s.records) 48
      && all valid_record s.records
      && valid_optional_usage s.usage

  abbrev pub digest_of : Record R → String
  digest_of r = r.request_digest

  abbrev pub uncertain : Record R → Bool
  uncertain r = is_pending r.state

-- An exception: an `AgentBackendError` with its code, or another one.
pub data Failure : Type 0 where
  backend : String → Failure
  other : Failure

-- The JSON that a response is, with the narrative that it has as one. `json.dumps` gives the size in
-- bytes, or raises; a schema may have the property `kind`; `as_turn` is the response where it is an
-- object of the keys and types of a turn; `validate_narrative` says whether `_validate_narrative`
-- accepts; and a response is read back from its redacted JSON where that is an object.
pub record Checks (Schema R : Type 0) : Type 0 where
  pub size : R → Option ℕ
  pub has_kind : Schema → Bool
  pub as_turn : R → Option (Turn R)
  pub validate_narrative : R → Bool
  pub expressions : Expressions
  pub document : R → Json
  pub of_document : Json → Option R

module _ {Schema R : Type 0} (checks : Checks Schema R) where
  -- `redact_sensitive`, and `isinstance(safe, dict)`.
  abbrev redacted : R → Option R
  redacted r = checks.of_document (redact checks.expressions (checks.document r))

  abbrev safe_object : Option R → Result Failure R
  safe_object none = raise (backend "invalid_response")
  safe_object (some r) = ok r

  abbrev accepted : Schema → R → Bool
  accepted schema response =
      if checks.has_kind schema
      then validate_turn checks.validate_narrative (checks.as_turn response)
      else checks.validate_narrative response

  abbrev sized : Schema → R → Option ℕ → Result Failure R
  sized schema response none = raise other
  sized schema response (some n) =
      raise_if (ltb 65_536 n) (backend "response_limit")
      >> raise_if (not (accepted schema response)) (backend "invalid_response")
      >> safe_object (redacted response)

  -- `_response`
  unfoldable pub check_response : Schema → R → Result Failure R
  check_response schema response = sized schema response (checks.size response)
