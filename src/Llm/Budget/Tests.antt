-- ===== src/Llm/Budget/Tests.antt =====
-- Runs of `TokenBudget`, and its theorems at them.
use aegify.Base.{
  ◌+◌, ◌-◌, ◌≤◌, ◌≡◌, ◌≢◌, ◌⊎◌, refl, true, false, String, none, some, [], arith, ok, raise, lookup,
  ◌↔◌, ap,
}
use aegify.Models.Values.{nat, has_length, is_digest}
use aegify.Models.Receipts.{valid_receipt, valid_labels, valid_usage_state}
use aegify.Llm.Budget.State.{TokenBudget, Outcome, unused, can_spend, remaining, absent_reservation}
use aegify.Llm.Budget.Reserve.{Request, reserve, new_receipt, dispatch}
use aegify.Llm.Budget.Settle.{Settlement, settle, settled_receipt, publish, FinalState}
use aegify.Llm.Budget.Usage.{get_token_usage, snapshot, restore_usage, in_use, unbounded}
use aegify.Llm.Budget.Invariant.{IsConsistent}
use aegify.Llm.Budget.Admission.{IsAdmissible, reserve-admits_iff, reserve-remaining}
use aegify.Llm.Budget.Accounting.{committed, settle-committed, settle-raise, settle-remaining-le}
use aegify.Llm.Budget.Snapshots.{restore_usage-get_token_usage, restore_usage_sound}
use aegify.Llm.Budget.Reachable.{Reachable, Step, used-IsConsistent, get_token_usage-total}

abbrev pub digest : String
digest = "sha256:0123456789abcdef0123456789abcdef0123456789abcdef0123456789abcdef"

abbrev request : Request
request = record {
  phase = "verification";
  estimated_input = nat 500;
  max_output = nat 200;
  prompt_bytes = nat 2000;
  model = "claude";
  request_digest = digest;
}

abbrev interrupted : Settlement
interrupted = record {
  usage = record {
    input_tokens = some (nat 480);
    output_tokens = none;
    cache_creation_input_tokens = none;
    cache_read_input_tokens = none;
    has_foreign_key = false;
  };
  usage_complete = false;
  state = FinalState.unknown;
  error_code = "timeout";
  response_digest = "";
  request_digest = "";
  response_model = "";
  response_id = "";
  stop_reason = "";
  http_status = none;
  elapsed_ms = nat 30_000;
}

abbrev pub start : TokenBudget
start = unused 1000 2

abbrev opened : TokenBudget
opened = (reserve "call-1" request start).1

abbrev pub closed : TokenBudget
closed = (settle "call-1" interrupted opened).1

reserves : (reserve "call-1" request start).0 ≡ ok (some "call-1")
unfolding reserve can_spend new_receipt dispatch valid_receipt valid_labels valid_usage_state
    is_digest has_length
reserves = refl

settles : (settle "call-1" interrupted opened).0 ≡ ok tt
unfolding settle reserve can_spend new_receipt dispatch valid_receipt valid_labels valid_usage_state
    is_digest has_length settled_receipt publish
settles = refl

left_over : remaining closed ≡ 300
unfolding settle reserve can_spend new_receipt dispatch valid_receipt valid_labels valid_usage_state
    is_digest has_length settled_receipt publish
left_over = refl

pub no_pending : closed.pending ≡ []
unfolding settle reserve can_spend new_receipt dispatch valid_receipt valid_labels valid_usage_state
    is_digest has_length settled_receipt publish
no_pending = refl

pub is_native : closed.legacy_usage ≡ false
unfolding settle reserve can_spend new_receipt dispatch valid_receipt valid_labels valid_usage_state
    is_digest has_length settled_receipt publish
is_native = refl

held_for_call : lookup "call-1" opened.pending ≡ some (record { index = 0; amount = 700 })
unfolding reserve can_spend new_receipt dispatch valid_receipt valid_labels valid_usage_state
    is_digest has_length
held_for_call = refl

pub trace : Reachable start closed
trace =
    Reachable.next (Reachable.next Reachable.here (Step.reserving "call-1" request refl))
      (Step.settling "call-1" interrupted)

opening : Reachable start opened
opening = Reachable.next Reachable.here (Step.reserving "call-1" request refl)

used-IsConsistent_example : IsConsistent closed
used-IsConsistent_example = used-IsConsistent 1000 2 closed (omega arith) trace

get_token_usage-total_example : get_token_usage closed ≡ ok (snapshot closed)
get_token_usage-total_example = get_token_usage-total 1000 2 closed (omega arith) trace

reserve-admits_iff_example :
    ((reserve "call-1" request start).0 ≡ ok (some "call-1"))
    ↔ (IsAdmissible request start × (valid_receipt (new_receipt "call-1" request) ≡ true))
reserve-admits_iff_example = reserve-admits_iff "call-1" request start

start-IsConsistent : IsConsistent start
start-IsConsistent = used-IsConsistent 1000 2 start (omega arith) Reachable.here

opened-IsConsistent : IsConsistent opened
opened-IsConsistent = used-IsConsistent 1000 2 opened (omega arith) opening

reserve-remaining_example :
    (((reserve "call-1" request start).0 ≡ ok (some "call-1"))
      × (remaining (reserve "call-1" request start).1 + (500 + 200) ≡ remaining start))
    ⊎ (((reserve "call-1" request start).0 ≢ ok (some "call-1"))
        × (remaining (reserve "call-1" request start).1 ≡ remaining start)
        × ((reserve "call-1" request start).1.calls ≡ start.calls))
reserve-remaining_example = reserve-remaining "call-1" request start start-IsConsistent refl

settle-committed_example : committed closed ≡ committed opened + (480 - 700)
settle-committed_example =
    settle-committed "call-1" interrupted opened (record { index = 0; amount = 700 }) held_for_call
      settles

settle-remaining-le_example : remaining closed ≤ remaining opened
settle-remaining-le_example = settle-remaining-le "call-1" interrupted opened refl

absent : (settle "call-2" interrupted opened).0 ≡ raise absent_reservation
unfolding settle reserve can_spend new_receipt dispatch valid_receipt valid_labels valid_usage_state
    is_digest has_length
absent = refl

settle-raise_example : (settle "call-2" interrupted opened).1 ≡ opened
settle-raise_example = settle-raise "call-2" interrupted opened absent_reservation absent

pub closed_usage : get_token_usage closed ≡ ok (snapshot closed)
closed_usage = get_token_usage-total 1000 2 closed (omega arith) trace

restore_usage-get_token_usage_example :
    restore_usage (snapshot closed) (unused closed.total_budget closed.max_calls) ≡ (ok tt, closed)
restore_usage-get_token_usage_example =
    restore_usage-get_token_usage closed (snapshot closed)
      (used-IsConsistent 1000 2 closed (omega arith) trace) is_native no_pending closed_usage

restored : (restore_usage (snapshot closed) (unused closed.total_budget closed.max_calls)).0 ≡ ok tt
restored =
    ap (λ (o : Outcome (Unit {0})). o.0)
      (restore_usage-get_token_usage closed (snapshot closed)
        (used-IsConsistent 1000 2 closed (omega arith) trace) is_native no_pending closed_usage)

restore_usage_sound_example :
    (get_token_usage
        (restore_usage (snapshot closed) (unused closed.total_budget closed.max_calls)).1
      ≡ ok (snapshot closed))
    × ((restore_usage
          (snapshot closed)
          (unused closed.total_budget closed.max_calls)).1.total_budget
        ≡ closed.total_budget)
    × ((restore_usage (snapshot closed) (unused closed.total_budget closed.max_calls)).1.max_calls
        ≡ closed.max_calls)
    × (in_use (unused closed.total_budget closed.max_calls) ≡ false)
    × (unbounded (snapshot closed) (unused closed.total_budget closed.max_calls) ≡ false)
restore_usage_sound_example =
    restore_usage_sound (snapshot closed) (unused closed.total_budget closed.max_calls) restored
