-- ===== src/Llm/Budget/Usage.antt =====
-- scanner/src/aegify/llm/budget.py: `get_token_usage` and `restore_usage`.
use aegify.Base.{
  ℕ, ◌+◌, ◌-◌, Bool, not, ◌||◌, List, [], ◌∷◌, map, ltb, if◌then◌else◌, any, length, sum_by,
  distinct, Result, ok, raise,
}
use aegify.Models.Receipts.{
  or_zero, any_counter, sum_counters, UsageStatus, CostStatus, ModelCallReceipt, TokenUsage,
  is_reported, is_dispatched, is_nil, is_pos, is_not_used, is_legacy, unreported, valid_usage,
  usage_eq,
}
use aegify.Llm.Budget.State.{
  TokenBudget, Error, validation_error, budget_in_use, unbounded_receipts, snapshot_disagrees,
  Outcome, unused, total_used, reserved, estimated_cost_usd,
}

-- `any(call.reported_usage for call in calls)`
abbrev pub has_usage : ModelCallReceipt → Bool
has_usage call = any_counter call.reported_usage

abbrev pub overall_status : TokenBudget → UsageStatus
overall_status b =
    if is_nil b.calls
    then (if b.legacy_usage then UsageStatus.legacy else UsageStatus.not_used)
    else if is_pos (sum_by unreported b.calls) || b.legacy_usage
    then (if any has_usage b.calls || b.legacy_usage
        then UsageStatus.partial
        else UsageStatus.unknown)
    else UsageStatus.reported

abbrev pub snapshot : TokenBudget → TokenUsage
snapshot b = record {
  input_tokens = b.input_tokens_used;
  output_tokens = b.output_tokens_used;
  cache_creation_input_tokens = b.cache_creation;
  cache_read_input_tokens = b.cache_read;
  total_cost_usd = estimated_cost_usd b;
  cost_status =
      if is_not_used (overall_status b) then CostStatus.not_used else CostStatus.unavailable;
  usage_status = overall_status b;
  calls_started = length b.calls;
  calls_rejected_before_dispatch = b.rejections;
  calls_with_unknown_usage = sum_by unreported b.calls;
  reserved_tokens = reserved b;
  prompt_bytes = b.prompt_bytes;
  output_tokens_requested = b.output_requested;
  last_error_code = b.last_error;
  calls = b.calls;
}

unfoldable pub get_token_usage : TokenBudget → Result Error TokenUsage
get_token_usage b = if valid_usage (snapshot b) then ok (snapshot b) else raise validation_error

-- The tokens that a receipt without complete usage keeps reserved.
abbrev pub kept : ModelCallReceipt → ℕ
kept call =
    if is_reported call.usage_status
    then 0
    else call.estimated_input_tokens
      + call.requested_output_tokens
      - sum_counters call.reported_usage

-- The body of the loop in `restore_usage`.
abbrev pub recount : TokenBudget → ModelCallReceipt → TokenBudget
recount b call =
    let c = call.reported_usage in
    record b {
      input_tokens_used = b.input_tokens_used + or_zero c.input_tokens;
      output_tokens_used = b.output_tokens_used + or_zero c.output_tokens;
      cache_creation = b.cache_creation + or_zero c.cache_creation_input_tokens;
      cache_read = b.cache_read + or_zero c.cache_read_input_tokens;
      prompt_bytes = b.prompt_bytes + call.prompt_bytes;
      output_requested = b.output_requested + call.requested_output_tokens;
      unknown_reservations = b.unknown_reservations + kept call;
    }

unfoldable pub recount_all : TokenBudget → List ModelCallReceipt → TokenBudget
recount_all b [] = b
recount_all b (call ∷ rest) = recount_all (recount b call) rest

unfoldable pub candidate : TokenUsage → TokenBudget → TokenBudget
candidate usage b =
    let fresh = unused b.total_budget b.max_calls in
    let counted = recount_all (record fresh { calls = usage.calls }) usage.calls in
    record counted {
      rejections = usage.calls_rejected_before_dispatch;
      last_error = usage.last_error_code;
    }

-- The fields that the closing loop of `restore_usage` copies from the candidate.
unfoldable pub adopt : TokenBudget → TokenBudget → TokenBudget
adopt c b = record b {
  input_tokens_used = c.input_tokens_used;
  output_tokens_used = c.output_tokens_used;
  cache_creation = c.cache_creation;
  cache_read = c.cache_read;
  unknown_reservations = c.unknown_reservations;
  prompt_bytes = c.prompt_bytes;
  output_requested = c.output_requested;
  rejections = c.rejections;
  last_error = c.last_error;
  calls = c.calls;
}

abbrev compare_snapshot :
    TokenUsage → TokenBudget → Result Error TokenUsage → TokenBudget → Outcome (Unit {0})
compare_snapshot usage c (raise e) b = (raise e, b)
compare_snapshot usage c (ok recounted) b =
    if usage_eq recounted usage then (ok tt, adopt c b) else (raise snapshot_disagrees, b)

abbrev pub in_use : TokenBudget → Bool
in_use b = not (is_nil b.calls) || is_pos (total_used b) || b.legacy_usage || not (is_nil b.pending)

abbrev pub unbounded : TokenUsage → TokenBudget → Bool
unbounded usage b =
    is_legacy usage.usage_status
    || ltb b.max_calls (length usage.calls)
    || not (distinct (map (λ call. call.id) usage.calls))
    || any (λ call. is_dispatched call.state) usage.calls

unfoldable pub restore_usage : TokenUsage → TokenBudget → Outcome (Unit {0})
restore_usage usage b =
    if in_use b
    then (raise budget_in_use, b)
    else if unbounded usage b
    then (raise unbounded_receipts, b)
    else compare_snapshot usage (candidate usage b) (get_token_usage (candidate usage b)) b
