-- ===== src/Models/Receipts.antt =====
-- `ModelCallReceipt` and `TokenUsage` of scanner/src/aegify/models.py, with their validators.
-- A construction that a validator refuses raises; here the validators are tests into Bool.
use mathlib.Core.Bool.{decide, decide_iff}
use aegify.Base.{
  ℕ_discrete, String-discrete, ◌≡◌, ◌↔◌, ℕ, ◌+◌, ◌&&◌, ◌||◌, not, Bool, true, false, String, Option,
  none, some, List, [], ◌∷◌, leb, ◌==◌, str_eq, str_mem, length, sum_by, ltb,
}
use aegify.Models.Values.{Value, is_nat, in_range, is_digest, has_length}

abbrev pub model_call_phases : List String
model_call_phases =
    "verification" ∷ "remediation" ∷ "additional_search" ∷ "agent:surface" ∷ "agent:static"
    ∷ "agent:dynamic" ∷ "agent:synthesis" ∷ "agent:cve" ∷ "agent:steward" ∷ []

-- A `dict[str, int]` over the four native token counters.
pub record Counters : Type 0 where
  pub input_tokens : Option ℕ
  pub output_tokens : Option ℕ
  pub cache_creation_input_tokens : Option ℕ
  pub cache_read_input_tokens : Option ℕ

abbrev pub no_counters : Counters
no_counters = record {
  input_tokens = none;
  output_tokens = none;
  cache_creation_input_tokens = none;
  cache_read_input_tokens = none;
}

-- `d.get(key, 0)`
abbrev pub or_zero : Option ℕ → ℕ
or_zero none = 0
or_zero (some n) = n

abbrev pub is_some {ℓ} : {A : Type ℓ} → Option A → Bool
is_some none = false
is_some (some a) = true

-- `sum(d.values())`
abbrev pub sum_counters : Counters → ℕ
sum_counters c =
    or_zero c.input_tokens
    + or_zero c.output_tokens
    + or_zero c.cache_creation_input_tokens
    + or_zero c.cache_read_input_tokens

-- `bool(d)`
abbrev pub any_counter : Counters → Bool
any_counter c =
    is_some c.input_tokens
    || is_some c.output_tokens
    || is_some c.cache_creation_input_tokens
    || is_some c.cache_read_input_tokens

-- `{"input_tokens", "output_tokens"} <= d.keys()`
abbrev pub has_both : Counters → Bool
has_both c = is_some c.input_tokens && is_some c.output_tokens

pub data CallState : Type 0 where
  dispatched completed rejected unknown : CallState

pub data CallUsage : Type 0 where
  reported partial unknown : CallUsage

pub data UsageStatus : Type 0 where
  not_used reported partial unknown legacy : UsageStatus

pub data CostStatus : Type 0 where
  not_used unavailable legacy_estimate : CostStatus

pub record ModelCallReceipt : Type 0 where
  pub id : String
  pub model : String
  pub phase : String
  pub state : CallState
  pub usage_status : CallUsage
  pub reported_usage : Counters
  pub estimated_input_tokens : ℕ
  pub requested_output_tokens : ℕ
  pub prompt_bytes : ℕ
  pub request_digest : String
  pub response_digest : String
  pub response_model : String
  pub response_id : String
  pub stop_reason : String
  pub http_status : Option Value
  pub error_code : String
  pub elapsed_ms : Value

abbrev pub is_reported : CallUsage → Bool
is_reported reported = true
is_reported partial = false
is_reported unknown = false

abbrev pub is_unknown : CallUsage → Bool
is_unknown reported = false
is_unknown partial = false
is_unknown unknown = true

abbrev pub is_dispatched : CallState → Bool
is_dispatched dispatched = true
is_dispatched completed = false
is_dispatched rejected = false
is_dispatched unknown = false

abbrev iff : Bool → Bool → Bool
iff true b = b
iff false b = not b

-- `validate_native_counters`: what is left to test once the keys are native and the values are
-- natural numbers.
abbrev pub counter_fits : Option ℕ → Bool
counter_fits none = true
counter_fits (some n) = leb n 1_000_000_000_000

abbrev pub counters_fit : Counters → Bool
counters_fit c =
    counter_fits c.input_tokens
    && counter_fits c.output_tokens
    && counter_fits c.cache_creation_input_tokens
    && counter_fits c.cache_read_input_tokens

-- `validate_usage_state`
unfoldable pub valid_usage_state : ModelCallReceipt → Bool
valid_usage_state r =
    not (is_reported r.usage_status && not (has_both r.reported_usage))
    && iff (is_unknown r.usage_status) (not (any_counter r.reported_usage))
    && not (is_dispatched r.state && not (is_unknown r.usage_status))

abbrev http_status_fits : Option Value → Bool
http_status_fits none = true
http_status_fits (some v) = in_range 100 599 v

-- The constraints on the fields of a receipt whose content no accounting reads.
unfoldable pub valid_labels : ModelCallReceipt → Bool
valid_labels r =
    has_length 1 64 r.id
    && has_length 1 256 r.model
    && str_mem r.phase model_call_phases
    && is_digest r.request_digest
    && (str_eq r.response_digest "" || is_digest r.response_digest)
    && has_length 0 256 r.response_model
    && has_length 0 256 r.response_id
    && has_length 0 80 r.stop_reason
    && http_status_fits r.http_status
    && has_length 0 80 r.error_code
    && is_nat r.elapsed_ms

-- `ModelCallReceipt(...)` succeeds.
unfoldable pub valid_receipt : ModelCallReceipt → Bool
valid_receipt r =
    valid_labels r
    && leb r.estimated_input_tokens 1_000_000_000_000
    && (leb 1 r.requested_output_tokens && leb r.requested_output_tokens 32_768)
    && (leb 1 r.prompt_bytes && leb r.prompt_bytes 262_144)
    && counters_fit r.reported_usage
    && valid_usage_state r

-- A cost is none, or a multiple of some fixed unit.
pub record TokenUsage : Type 0 where
  pub input_tokens : ℕ
  pub output_tokens : ℕ
  pub cache_creation_input_tokens : ℕ
  pub cache_read_input_tokens : ℕ
  pub total_cost_usd : Option ℕ
  pub cost_status : CostStatus
  pub usage_status : UsageStatus
  pub calls_started : ℕ
  pub calls_rejected_before_dispatch : ℕ
  pub calls_with_unknown_usage : ℕ
  pub reserved_tokens : ℕ
  pub prompt_bytes : ℕ
  pub output_tokens_requested : ℕ
  pub last_error_code : String
  pub calls : List ModelCallReceipt

abbrev pub is_pos : ℕ → Bool
is_pos n = ltb 0 n

-- The four categories do not overlap.
abbrev pub reported_tokens : TokenUsage → ℕ
reported_tokens u =
    u.input_tokens + u.output_tokens + u.cache_creation_input_tokens + u.cache_read_input_tokens

abbrev pub is_not_used : UsageStatus → Bool
is_not_used not_used = true
is_not_used reported = false
is_not_used partial = false
is_not_used unknown = false
is_not_used legacy = false

abbrev pub is_legacy : UsageStatus → Bool
is_legacy not_used = false
is_legacy reported = false
is_legacy partial = false
is_legacy unknown = false
is_legacy legacy = true

-- `sum(call.usage_status != "reported" for call in calls)`
abbrev pub one_if : Bool → ℕ
one_if true = 1
one_if false = 0

abbrev pub unreported : ModelCallReceipt → ℕ
unreported call = one_if (not (is_reported call.usage_status))

abbrev pub is_nil {ℓ} : {A : Type ℓ} → List A → Bool
is_nil [] = true
is_nil (x ∷ xs) = false

abbrev active : TokenUsage → Bool
active u =
    is_pos (reported_tokens u)
    || is_pos u.calls_started
    || not (is_nil u.calls)
    || is_pos u.reserved_tokens
    || is_pos u.calls_with_unknown_usage
    || is_pos u.prompt_bytes
    || is_pos u.output_tokens_requested

abbrev is_zero : Option ℕ → Bool
is_zero none = false
is_zero (some n) = n == 0

abbrev cost_agrees : TokenUsage → CostStatus → Bool
cost_agrees u unavailable = not (is_some u.total_cost_usd)
cost_agrees u legacy_estimate = is_some u.total_cost_usd
cost_agrees u not_used =
    not (active u || not (is_not_used u.usage_status) || not (is_zero u.total_cost_usd))

abbrev counts_agree : TokenUsage → Bool
counts_agree u =
    is_nil u.calls
    || u.calls_started == length u.calls && u.calls_with_unknown_usage == sum_by unreported u.calls

-- `TokenUsage(...)` with `usage_status` and `cost_status` given succeeds.
unfoldable pub valid_usage : TokenUsage → Bool
valid_usage u =
    leb u.calls_started 250
    && leb u.calls_with_unknown_usage 250
    && has_length 0 80 u.last_error_code
    && leb (length u.calls) 250
    && cost_agrees u u.cost_status
    && counts_agree u

ruleset discrete_parts = (ℕ_discrete, String-discrete)

Value-discrete : Discrete Value
Value-discrete = hlevel discrete_parts

Counters-discrete : Discrete Counters
Counters-discrete = hlevel discrete_parts

ModelCallReceipt-discrete : Discrete ModelCallReceipt
ModelCallReceipt-discrete = hlevel (discrete_parts, Value-discrete, Counters-discrete)

TokenUsage-discrete : Discrete TokenUsage
TokenUsage-discrete = hlevel (discrete_parts, ModelCallReceipt-discrete)

-- `==` on two usage records compares every field.
unfoldable pub usage_eq : TokenUsage → TokenUsage → Bool
unfolding TokenUsage-discrete Value-discrete Counters-discrete ModelCallReceipt-discrete ℕ_discrete
    String-discrete
usage_eq u v = decide (TokenUsage-discrete u v)

pub usage_eq_iff : (u v : TokenUsage) → (usage_eq u v ≡ true) ↔ (u ≡ v)
unfolding usage_eq
usage_eq_iff u v = decide_iff (TokenUsage-discrete u v)
