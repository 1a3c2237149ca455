-- ===== src/Llm/Budget/Reserve.antt =====
-- scanner/src/aegify/llm/budget.py: `reserve`. The identifier that `uuid.uuid4` returns is an argument.
use aegify.Base.{
  ◌+◌, Bool, not, ◌||◌, String, Option, none, some, [], ◌∷◌, ◌++◌, ltb, if◌then◌else◌, length,
  insert, ok, raise,
}
use aegify.Models.Values.{Value, nat, number, in_range}
use aegify.Models.Receipts.{no_counters, dispatched, CallUsage, ModelCallReceipt, valid_receipt}
use aegify.Llm.Budget.State.{
  TokenBudget, validation_error, Outcome, can_spend, reject, valid_counter, max_prompt_bytes,
  max_total_prompt_bytes, max_output_tokens_requested,
}

-- The keyword arguments of `reserve`.
pub record Request : Type 0 where
  pub phase : String
  pub estimated_input : Value
  pub max_output : Value
  pub prompt_bytes : Value
  pub model : String
  pub request_digest : String

unfoldable pub new_receipt : String → Request → ModelCallReceipt
new_receipt call_id q = record {
  id = call_id;
  model = q.model;
  phase = q.phase;
  state = dispatched;
  usage_status = CallUsage.unknown;
  reported_usage = no_counters;
  estimated_input_tokens = number q.estimated_input;
  requested_output_tokens = number q.max_output;
  prompt_bytes = number q.prompt_bytes;
  request_digest = q.request_digest;
  response_digest = "";
  response_model = "";
  response_id = "";
  stop_reason = "";
  http_status = none;
  error_code = "";
  elapsed_ms = nat 0;
}

-- The assignments that end `reserve`.
unfoldable pub dispatch : ModelCallReceipt → TokenBudget → TokenBudget
dispatch r b = record b {
  prompt_bytes = b.prompt_bytes + r.prompt_bytes;
  output_requested = b.output_requested + r.requested_output_tokens;
  calls = b.calls ++ r ∷ [];
  pending =
      insert r.id
        (record {
          index = length b.calls;
          amount = r.estimated_input_tokens + r.requested_output_tokens;
        })
        b.pending;
}

abbrev pub bad_request_limits : Request → Bool
bad_request_limits q =
    not (valid_counter q.estimated_input)
    || not (in_range 1 32_768 q.max_output)
    || not (in_range 1 max_prompt_bytes q.prompt_bytes)

abbrev pub exhausted : Request → TokenBudget → Bool
exhausted q b =
    not (can_spend q.phase (nat (number q.estimated_input + number q.max_output)) b)
    || ltb max_total_prompt_bytes (b.prompt_bytes + number q.prompt_bytes)
    || ltb max_output_tokens_requested (b.output_requested + number q.max_output)

unfoldable pub reserve : String → Request → TokenBudget → Outcome (Option String)
reserve call_id q b =
    if bad_request_limits q
    then (ok none, reject "invalid_request_limits" b)
    else if exhausted q b
    then (ok none, reject "budget_exhausted" b)
    else if valid_receipt (new_receipt call_id q)
    then (ok (some call_id), dispatch (new_receipt call_id q) b)
    else (raise validation_error, b)
