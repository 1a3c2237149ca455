-- ===== src/Llm/Budget/Invariant.antt =====
-- The accounting invariant of `TokenBudget` (scanner/src/aegify/llm/budget.py), and how adding or
-- replacing a receipt moves its sums.
use aegify.Base.{
  ℕ, suc, ◌+◌, ◌≤◌, ◌≡◌, refl, true, false, String, some, List, [], ◌∷◌, ◌++◌, map, arith,
  if◌then◌else◌, str_eq, str_mem, eq_iff, length, get_elem?, set, sum_by, All, distinct, keys,
}
use aegify.Models.Receipts.{no_counters, or_zero, ModelCallReceipt, is_dispatched, one_if}
use aegify.Llm.Budget.State.{
  TokenBudget, Reservation, max_total_prompt_bytes, max_output_tokens_requested,
}
use aegify.Llm.Budget.Usage.{kept}
use aegify.Models.Values.{has_length}

abbrev pub id_of : ModelCallReceipt → String
id_of call = call.id

abbrev pub input_of : ModelCallReceipt → ℕ
input_of call = or_zero call.reported_usage.input_tokens

abbrev pub output_of : ModelCallReceipt → ℕ
output_of call = or_zero call.reported_usage.output_tokens

abbrev pub creation_of : ModelCallReceipt → ℕ
creation_of call = or_zero call.reported_usage.cache_creation_input_tokens

abbrev pub read_of : ModelCallReceipt → ℕ
read_of call = or_zero call.reported_usage.cache_read_input_tokens

abbrev pub prompt_of : ModelCallReceipt → ℕ
prompt_of call = call.prompt_bytes

abbrev pub requested_of : ModelCallReceipt → ℕ
requested_of call = call.requested_output_tokens

abbrev pub is_open : ModelCallReceipt → ℕ
is_open call = one_if (is_dispatched call.state)

-- What a settled receipt keeps reserved. An open call's tokens are held by its reservation.
abbrev pub kept_settled : ModelCallReceipt → ℕ
kept_settled call = if is_dispatched call.state then 0 else kept call

-- A reservation holds the estimate of an open call, under that call's identifier.
pub record IsBacked (calls : List ModelCallReceipt) (e : String × Reservation) : Type 0 where
  pub call : ModelCallReceipt
  pub found : get_elem? calls e.1.index ≡ some call
  pub named : call.id ≡ e.0
  pub waiting : is_dispatched call.state ≡ true
  pub unused : call.reported_usage ≡ no_counters
  pub amount : e.1.amount ≡ call.estimated_input_tokens + call.requested_output_tokens

pub record IsConsistent (b : TokenBudget) : Type 0 where
  pub limit_fits : b.max_calls ≤ 250
  pub room : length b.calls ≤ b.max_calls
  pub input_counted : b.legacy_usage ≡ false → b.input_tokens_used ≡ sum_by input_of b.calls
  pub output_counted : b.legacy_usage ≡ false → b.output_tokens_used ≡ sum_by output_of b.calls
  pub creation_counted : b.cache_creation ≡ sum_by creation_of b.calls
  pub read_counted : b.cache_read ≡ sum_by read_of b.calls
  pub kept_counted : b.unknown_reservations ≡ sum_by kept_settled b.calls
  pub prompt_counted : b.prompt_bytes ≡ sum_by prompt_of b.calls
  pub prompt_fits : b.prompt_bytes ≤ max_total_prompt_bytes
  pub requested_counted : b.output_requested ≡ sum_by requested_of b.calls
  pub requested_fits : b.output_requested ≤ max_output_tokens_requested
  pub ids_differ : distinct (map id_of b.calls) ≡ true
  pub keys_differ : distinct (keys b.pending) ≡ true
  pub backed : All (IsBacked b.calls) b.pending
  pub all_open : sum_by is_open b.calls ≡ length b.pending
  pub error_fits : has_length 0 80 b.last_error ≡ true

-- The identifier of a call is among the identifiers.
pub mem_of_get_elem? :
    (calls : List ModelCallReceipt) (i : ℕ) (call : ModelCallReceipt)
    → get_elem? calls i ≡ some call
    → str_mem call.id (map id_of calls) ≡ true
mem_of_get_elem? [] i call h = absurd (cc)
mem_of_get_elem? (c ∷ cs) ℕ.zero call h = ground (arith, eq_iff call.id c.id)
mem_of_get_elem? (c ∷ cs) (suc i) call h = ground (arith, mem_of_get_elem? cs i call h)

str_mem-snoc :
    (s t : String) (ts : List String)
    → str_mem s ts ≡ false
    → str_eq s t ≡ false
    → str_mem s (ts ++ t ∷ []) ≡ false
str_mem-snoc s t [] h n = ground arith
str_mem-snoc s t (u ∷ ts) h n = ground (arith, str_mem-snoc s t ts)

pub distinct-snoc :
    (t : String) (ts : List String)
    → distinct ts ≡ true
    → str_mem t ts ≡ false
    → distinct (ts ++ t ∷ []) ≡ true
distinct-snoc t [] d n = refl
distinct-snoc t (u ∷ ts) d n =
    ground (arith, distinct-snoc t ts, str_mem-snoc u t ts, eq_iff t u, eq_iff u t)

-- A new identifier is no key of the reservations.
pub absent_key :
    (calls : List ModelCallReceipt) (d : List (String × Reservation)) (s : String)
    → All (IsBacked calls) d
    → str_mem s (map id_of calls) ≡ false
    → str_mem s (keys d) ≡ false
absent_key calls [] s a n = refl
absent_key calls ((k, p) ∷ d) s a n = ground (
  arith,
  absent_key calls d s a.1 n,
  eq_iff s k,
  mem_of_get_elem? calls p.index a.0.call a.0.found,
  a.0.named,
)

-- A receipt that keeps its identifier keeps the list of identifiers.
pub map-id-set :
    (calls : List ModelCallReceipt) (i : ℕ) (u v : ModelCallReceipt)
    → get_elem? calls i ≡ some u
    → v.id ≡ u.id
    → map id_of (set calls i v) ≡ map id_of calls
map-id-set [] i u v h e = refl
map-id-set (c ∷ cs) ℕ.zero u v h e = ground arith
map-id-set (c ∷ cs) (suc i) u v h e = cc (map-id-set cs i u v h e)
