-- ===== src/Llm/Budget/Settle.antt =====
-- scanner/src/aegify/llm/budget.py: `settle` and `record_usage`.
use aegify.Base.{
  ℕ, ◌+◌, ◌-◌, Bool, true, false, not, ◌&&◌, ◌||◌, String, Option, none, some, if◌then◌else◌,
  str_eq, str_mem, get_elem?, set, lookup, remove, ok, raise,
}
use aegify.Models.Values.{Value, number}
use aegify.Models.Receipts.{
  model_call_phases, Counters, or_zero, any_counter, has_both, sum_counters, CallState, CallUsage,
  reported, partial, ModelCallReceipt, valid_receipt,
}
use aegify.Llm.Budget.State.{
  Reservation, TokenBudget, validation_error, absent_reservation, bad_usage_counter,
  incomplete_usage, bad_caller_usage, Outcome, valid_counter,
}

-- The `usage` argument: a dict, seen through the four native counters, and whether it has a key
-- beyond them.
pub record Usage : Type 0 where
  pub input_tokens : Option Value
  pub output_tokens : Option Value
  pub cache_creation_input_tokens : Option Value
  pub cache_read_input_tokens : Option Value
  pub has_foreign_key : Bool

abbrev bad_entry : Option Value → Bool
bad_entry none = false
bad_entry (some v) = not (valid_counter v)

abbrev pub bad_usage : Usage → Bool
bad_usage u =
    u.has_foreign_key
    || bad_entry u.input_tokens
    || bad_entry u.output_tokens
    || bad_entry u.cache_creation_input_tokens
    || bad_entry u.cache_read_input_tokens

abbrev count_of : Option Value → Option ℕ
count_of none = none
count_of (some v) = some (number v)

-- A usage without bad entries, as counters.
abbrev pub counters : Usage → Counters
counters u = record {
  input_tokens = count_of u.input_tokens;
  output_tokens = count_of u.output_tokens;
  cache_creation_input_tokens = count_of u.cache_creation_input_tokens;
  cache_read_input_tokens = count_of u.cache_read_input_tokens;
}

-- `Literal["completed", "rejected", "unknown"]`
pub data FinalState : Type 0 where
  completed rejected unknown : FinalState

abbrev pub call_state : FinalState → CallState
call_state completed = CallState.completed
call_state rejected = CallState.rejected
call_state unknown = CallState.unknown

-- The keyword arguments of `settle`.
pub record Settlement : Type 0 where
  pub usage : Usage
  pub usage_complete : Bool
  pub state : FinalState
  pub error_code : String
  pub response_digest : String
  pub request_digest : String
  pub response_model : String
  pub response_id : String
  pub stop_reason : String
  pub http_status : Option Value
  pub elapsed_ms : Value

abbrev pub usage_status : Bool → Counters → CallUsage
usage_status complete c =
    if complete then reported else if any_counter c then partial else CallUsage.unknown

unfoldable pub settled_receipt : Settlement → ModelCallReceipt → ModelCallReceipt
settled_receipt s previous = record previous {
  state = call_state s.state;
  usage_status = usage_status s.usage_complete (counters s.usage);
  reported_usage = counters s.usage;
  error_code = s.error_code;
  request_digest = if str_eq s.request_digest "" then previous.request_digest else s.request_digest;
  response_digest = s.response_digest;
  response_model = s.response_model;
  response_id = s.response_id;
  stop_reason = s.stop_reason;
  http_status = s.http_status;
  elapsed_ms = s.elapsed_ms;
}

-- The assignments that end `settle`.
unfoldable pub publish :
    Settlement → String → Reservation → ModelCallReceipt → TokenBudget → TokenBudget
publish s call_id p receipt b =
    let c = counters s.usage in
    record b {
      input_tokens_used = b.input_tokens_used + or_zero c.input_tokens;
      output_tokens_used = b.output_tokens_used + or_zero c.output_tokens;
      cache_creation = b.cache_creation + or_zero c.cache_creation_input_tokens;
      cache_read = b.cache_read + or_zero c.cache_read_input_tokens;
      unknown_reservations =
          if s.usage_complete
          then b.unknown_reservations
          else b.unknown_reservations + (p.amount - sum_counters c);
      last_error = if str_eq s.error_code "" then b.last_error else s.error_code;
      calls = set b.calls p.index receipt;
      pending = remove call_id b.pending;
    }

-- From the receipt at the reservation's index on. An index beyond the receipts, which no
-- reservation has, would be an `IndexError`.
abbrev pub settle_at :
    Settlement → String → Reservation → Option ModelCallReceipt → TokenBudget → Outcome (Unit {0})
settle_at s call_id p none b = (raise validation_error, b)
settle_at s call_id p (some previous) b =
    if valid_receipt (settled_receipt s previous)
    then (ok tt, publish s call_id p (settled_receipt s previous) b)
    else (raise validation_error, b)

abbrev pub settle_pending :
    Settlement → String → Option Reservation → TokenBudget → Outcome (Unit {0})
settle_pending s call_id none b = (raise absent_reservation, b)
settle_pending s call_id (some p) b =
    if bad_usage s.usage
    then (raise bad_usage_counter, b)
    else if s.usage_complete && not (has_both (counters s.usage))
    then (raise incomplete_usage, b)
    else settle_at s call_id p (get_elem? b.calls p.index) b

unfoldable pub settle : String → Settlement → TokenBudget → Outcome (Unit {0})
settle call_id s b = settle_pending s call_id (lookup call_id b.pending) b

unfoldable pub record_usage : String → Value → Value → TokenBudget → Outcome (Unit {0})
record_usage phase input_tokens output_tokens b =
    if not (str_mem phase model_call_phases)
      || not (valid_counter input_tokens)
      || not (valid_counter output_tokens)
    then (raise bad_caller_usage, b)
    else (
      ok tt,
      record b {
        input_tokens_used = b.input_tokens_used + number input_tokens;
        output_tokens_used = b.output_tokens_used + number output_tokens;
        legacy_usage = true;
      },
    )
