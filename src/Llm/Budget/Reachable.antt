-- ===== src/Llm/Budget/Reachable.antt =====
-- The methods of `TokenBudget` (scanner/src/aegify/llm/budget.py) as steps of a budget in use.
use aegify.Base.{
  ℕ, ◌≤◌, ◌≡◌, refl, true, false, not, ◌||◌, inl, inr, Bool-cases, String, map, str_mem, arith, ok,
}
use aegify.Models.Values.{Value, has_length}
use aegify.Models.Receipts.{model_call_phases}
use aegify.Llm.Budget.State.{TokenBudget, unused, reject, valid_counter}
use aegify.Llm.Budget.Reserve.{Request, reserve}
use aegify.Llm.Budget.Settle.{Settlement, settle, record_usage}
use aegify.Llm.Budget.Usage.{get_token_usage, snapshot}
use aegify.Llm.Budget.Invariant.{IsConsistent, id_of}
use aegify.Llm.Budget.Admission.{reserve-IsConsistent}
use aegify.Llm.Budget.Accounting.{settle-IsConsistent}
use aegify.Llm.Budget.Snapshots.{get_token_usage-ok}

-- A `uuid4` identifier is taken to be new; `reject` is called with a short code.
pub data Step (b : TokenBudget) : TokenBudget → Type 0 where
  reserving :
      (call_id : String) (q : Request)
      → str_mem call_id (map id_of b.calls) ≡ false
      → Step b (reserve call_id q b).1
  settling : (call_id : String) (s : Settlement) → Step b (settle call_id s b).1
  recording : (phase : String) (input output : Value) → Step b (record_usage phase input output b).1
  rejecting : (code : String) → has_length 0 80 code ≡ true → Step b (reject code b)

pub data Reachable (b : TokenBudget) : TokenBudget → Type 0 where
  here : Reachable b b
  next : {c d : TokenBudget} → Reachable b c → Step c d → Reachable b d

pub unused-IsConsistent : (total calls : ℕ) → calls ≤ 250 → IsConsistent (unused total calls)
unfolding has_length
unused-IsConsistent total calls h = record {
  limit_fits = h;
  room = omega arith;
  input_counted = λ l. refl;
  output_counted = λ l. refl;
  creation_counted = refl;
  read_counted = refl;
  kept_counted = refl;
  prompt_counted = refl;
  prompt_fits = omega arith;
  requested_counted = refl;
  requested_fits = omega arith;
  ids_differ = refl;
  keys_differ = refl;
  backed = tt;
  all_open = refl;
  error_fits = refl;
}

reject-IsConsistent :
    (code : String) (b : TokenBudget)
    → has_length 0 80 code ≡ true
    → IsConsistent b
    → IsConsistent (reject code b)
unfolding reject
reject-IsConsistent code b fits c = record {
  limit_fits = c.limit_fits;
  room = c.room;
  input_counted = c.input_counted;
  output_counted = c.output_counted;
  creation_counted = c.creation_counted;
  read_counted = c.read_counted;
  kept_counted = c.kept_counted;
  prompt_counted = c.prompt_counted;
  prompt_fits = c.prompt_fits;
  requested_counted = c.requested_counted;
  requested_fits = c.requested_fits;
  ids_differ = c.ids_differ;
  keys_differ = c.keys_differ;
  backed = c.backed;
  all_open = c.all_open;
  error_fits = fits;
}

record_usage-IsConsistent :
    (phase : String) (input output : Value) (b : TokenBudget)
    → IsConsistent b
    → IsConsistent (record_usage phase input output b).1
unfolding record_usage
record_usage-IsConsistent phase input output b c =
    elim (Bool-cases (
      not (str_mem phase model_call_phases)
      || not (valid_counter input)
      || not (valid_counter output))) [
        | inl e ↦ rw e c
        | inr e ↦ rw e (record {
          limit_fits = c.limit_fits;
          room = c.room;
          input_counted = λ l. cc;
          output_counted = λ l. cc;
          creation_counted = c.creation_counted;
          read_counted = c.read_counted;
          kept_counted = c.kept_counted;
          prompt_counted = c.prompt_counted;
          prompt_fits = c.prompt_fits;
          requested_counted = c.requested_counted;
          requested_fits = c.requested_fits;
          ids_differ = c.ids_differ;
          keys_differ = c.keys_differ;
          backed = c.backed;
          all_open = c.all_open;
          error_fits = c.error_fits;
        })
      ]

Step-IsConsistent : {b c : TokenBudget} → Step b c → IsConsistent b → IsConsistent c
Step-IsConsistent {b} (reserving call_id q fresh) k = reserve-IsConsistent call_id q b fresh k
Step-IsConsistent {b} (settling call_id s) k = settle-IsConsistent call_id s b k
Step-IsConsistent {b} (recording phase input output) k =
    record_usage-IsConsistent phase input output b k
Step-IsConsistent {b} (rejecting code fits) k = reject-IsConsistent code b fits k

Reachable-IsConsistent : {b c : TokenBudget} → Reachable b c → IsConsistent b → IsConsistent c
Reachable-IsConsistent here k = k
Reachable-IsConsistent (next r s) k = Step-IsConsistent s (Reachable-IsConsistent r k)

-- Whatever sequence of reserve, settle, record_usage and reject calls a new budget of at most 250 calls
-- goes through, refused calls included, where each reserve draws a new identifier and reject is given
-- codes of at most 80 characters, its accounts stay consistent: the call, prompt and output caps hold;
-- the totals of cache tokens, of what settled calls keep reserved, of prompt bytes and of requested
-- output are the sums over the receipts, and so are those of input and output tokens while the legacy
-- flag that record_usage sets is not set; identifiers differ; and the open calls and the reservations are as
-- many, and each reservation is of the full estimate of an open call.
pub used-IsConsistent :
    (total calls : ℕ) (b : TokenBudget)
    → calls ≤ 250
    → Reachable (unused total calls) b
    → IsConsistent b
used-IsConsistent total calls b h r = Reachable-IsConsistent r (unused-IsConsistent total calls h)

-- A budget in use can always report its usage.
pub get_token_usage-total :
    (total calls : ℕ) (b : TokenBudget)
    → calls ≤ 250
    → Reachable (unused total calls) b
    → get_token_usage b ≡ ok (snapshot b)
get_token_usage-total total calls b h r = get_token_usage-ok b (used-IsConsistent total calls b h r)
