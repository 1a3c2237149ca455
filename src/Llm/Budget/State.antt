-- ===== src/Llm/Budget/State.antt =====
-- scanner/src/aegify/llm/budget.py: the state of `TokenBudget` and what its properties read. The split of the
-- total into float shares, which nothing reads, and the log lines are left out.
use aegify.Base.{
  ℕ, ◌+◌, ◌-◌, Bool, false, not, ◌&&◌, ◌||◌, String, Option, none, some, List, [], ltb,
  if◌then◌else◌, str_mem, length, sum_by, Dict, Result, ok, raise,
}
use aegify.Models.Values.{Value, number, in_range}
use aegify.Models.Receipts.{model_call_phases, ModelCallReceipt, is_nil}

abbrev pub max_prompt_bytes : ℕ
max_prompt_bytes = 262_144

abbrev pub max_total_prompt_bytes : ℕ
max_total_prompt_bytes = 4_000_000

abbrev pub max_output_tokens_requested : ℕ
max_output_tokens_requested = 655_360

abbrev pub max_counter : ℕ
max_counter = 1_000_000_000_000

abbrev pub valid_counter : Value → Bool
valid_counter = in_range 0 max_counter

-- The place of an open call in `_calls`, and the tokens held for it.
pub record Reservation : Type 0 where
  pub index : ℕ
  pub amount : ℕ

pub record TokenBudget : Type 0 where
  pub total_budget : ℕ
  pub max_calls : ℕ
  pub input_tokens_used : ℕ
  pub output_tokens_used : ℕ
  pub cache_creation : ℕ
  pub cache_read : ℕ
  pub unknown_reservations : ℕ
  pub prompt_bytes : ℕ
  pub output_requested : ℕ
  pub rejections : ℕ
  pub last_error : String
  pub legacy_usage : Bool
  pub calls : List ModelCallReceipt
  pub pending : Dict Reservation

pub data Error : Type 0 where
  bad_total bad_call_limit : Error
  validation_error : Error
  absent_reservation bad_usage_counter incomplete_usage : Error
  bad_caller_usage : Error
  budget_in_use unbounded_receipts snapshot_disagrees : Error

-- What a method returns or raises, and the budget that it leaves.
abbrev pub Outcome : Type 0 → Type 0
Outcome A = Result Error A × TokenBudget

abbrev pub unused : ℕ → ℕ → TokenBudget
unused total calls = record {
  total_budget = total;
  max_calls = calls;
  input_tokens_used = 0;
  output_tokens_used = 0;
  cache_creation = 0;
  cache_read = 0;
  unknown_reservations = 0;
  prompt_bytes = 0;
  output_requested = 0;
  rejections = 0;
  last_error = "";
  legacy_usage = false;
  calls = [];
  pending = [];
}

-- `TokenBudget(total_budget, max_calls)` with `__post_init__`.
unfoldable pub create : Value → Value → Result Error TokenBudget
create total calls =
    if not (in_range 0 10_000_000 total)
    then raise bad_total
    else if not (in_range 1 250 calls)
    then raise bad_call_limit
    else ok (unused (number total) (number calls))

abbrev pub total_used : TokenBudget → ℕ
total_used b = b.input_tokens_used + b.output_tokens_used + b.cache_creation + b.cache_read

abbrev pub held : Dict Reservation → ℕ
held = sum_by (λ e. e.1.amount)

abbrev pub reserved : TokenBudget → ℕ
reserved b = b.unknown_reservations + held b.pending

-- `-` stops at 0, as `max(0, ...)` does.
abbrev pub remaining : TokenBudget → ℕ
remaining b = b.total_budget - total_used b - reserved b

-- Two nothings or zero: a number only while nothing was used.
unfoldable pub estimated_cost_usd : TokenBudget → Option ℕ
estimated_cost_usd b = if not (is_nil b.calls) || b.legacy_usage then none else some 0

unfoldable pub can_spend : String → Value → TokenBudget → Bool
can_spend phase estimated_tokens b =
    str_mem phase model_call_phases
    && in_range 0 (remaining b) estimated_tokens
    && ltb (length b.calls) b.max_calls

unfoldable pub reject : String → TokenBudget → TokenBudget
reject code b = record b { rejections = b.rejections + 1; last_error = code }
