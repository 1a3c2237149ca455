-- ===== src/Llm/Budget/Admission.antt =====
-- `reserve` of scanner/src/aegify/llm/budget.py: what it admits, and the accounts after it.
use aegify.Base.{
  ℕ, ◌+◌, ◌≤◌, ◌<◌, ◌≡◌, ◌≢◌, refl, ap, true, false, String, Option, none, some, List, [], ◌∷◌,
  ◌++◌, map, arith, str_mem, length, All, keys, length-append, sum_by-append, get_elem?-append_left,
  get_elem?-snoc, insert_absent, insert, All-append, Bool-cases, inl, inr, ◌⊎◌, ok, raise, ◌↔◌,
}
use mathlib.Core.List.{map-append}
use aegify.Models.Values.{has_length, number, in_range}
use aegify.Models.Receipts.{
  model_call_phases, ModelCallReceipt, is_dispatched, valid_receipt, no_counters,
}
use aegify.Llm.Budget.State.{
  TokenBudget, Reservation, validation_error, Outcome, reject, can_spend, remaining, held,
  max_total_prompt_bytes, max_output_tokens_requested, max_prompt_bytes, valid_counter,
}
use aegify.Llm.Budget.Reserve.{
  Request, new_receipt, dispatch, reserve, exhausted, bad_request_limits,
}
use aegify.Llm.Budget.Invariant.{
  IsBacked, IsConsistent, id_of, input_of, output_of, creation_of, read_of, prompt_of, requested_of,
  is_open, kept_settled, absent_key, distinct-snoc,
}

grow-IsBacked :
    (calls : List ModelCallReceipt) (r : ModelCallReceipt) (e : String × Reservation)
    → IsBacked calls e
    → IsBacked (calls ++ r ∷ []) e
grow-IsBacked calls r e k = record {
  call = k.call;
  found = get_elem?-append_left calls (r ∷ []) e.1.index k.call k.found;
  named = k.named;
  waiting = k.waiting;
  unused = k.unused;
  amount = k.amount;
}

grow-All :
    (calls : List ModelCallReceipt) (r : ModelCallReceipt) (d : List (String × Reservation))
    → All (IsBacked calls) d
    → All (IsBacked (calls ++ r ∷ [])) d
grow-All calls r [] a = tt
grow-All calls r (e ∷ d) a = (grow-IsBacked calls r e a.0, grow-All calls r d a.1)

-- The reservation that a dispatched receipt gets.
abbrev opened : ModelCallReceipt → ℕ → Reservation
opened r n = record { index = n; amount = r.estimated_input_tokens + r.requested_output_tokens }

-- A receipt as `reserve` makes it, under an identifier that no call has.
record IsNew (b : TokenBudget) (r : ModelCallReceipt) : Type 0 where
  fresh : str_mem r.id (map id_of b.calls) ≡ false
  waiting : is_dispatched r.state ≡ true
  unused : r.reported_usage ≡ no_counters
  room : length b.calls < b.max_calls
  prompt_fits : b.prompt_bytes + r.prompt_bytes ≤ max_total_prompt_bytes
  requested_fits : b.output_requested + r.requested_output_tokens ≤ max_output_tokens_requested

module _ (b : TokenBudget) (r : ModelCallReceipt) (c : IsConsistent b) (new : IsNew b r) where
  no_key : str_mem r.id (keys b.pending) ≡ false
  no_key = absent_key b.calls b.pending r.id c.backed new.fresh

  pending-snoc :
      insert r.id (opened r (length b.calls)) b.pending
      ≡ b.pending ++ (r.id, opened r (length b.calls)) ∷ []
  pending-snoc = insert_absent r.id _ b.pending no_key

  backed-snoc :
      All (IsBacked (b.calls ++ r ∷ [])) (b.pending ++ (r.id, opened r (length b.calls)) ∷ [])
  backed-snoc =
      All-append (IsBacked (b.calls ++ r ∷ [])) b.pending ((r.id, opened r (length b.calls)) ∷ [])
        (grow-All b.calls r b.pending c.backed)
        (
          record {
            call = r;
            found = get_elem?-snoc b.calls r;
            named = refl;
            waiting = new.waiting;
            unused = new.unused;
            amount = refl;
          },
          tt,
        )

  dispatch-IsConsistent : IsConsistent (dispatch r b)
  unfolding dispatch
  dispatch-IsConsistent = record {
    limit_fits = c.limit_fits;
    room = omega (arith, length-append b.calls (r ∷ []), new.room);
    input_counted =
        λ l. ground (arith, c.input_counted l, sum_by-append input_of b.calls (r ∷ []), new.unused);
    output_counted = λ l.
        ground (arith, c.output_counted l, sum_by-append output_of b.calls (r ∷ []), new.unused);
    creation_counted =
        ground (arith, c.creation_counted, sum_by-append creation_of b.calls (r ∷ []), new.unused);
    read_counted =
        ground (arith, c.read_counted, sum_by-append read_of b.calls (r ∷ []), new.unused);
    kept_counted =
        ground (arith, c.kept_counted, sum_by-append kept_settled b.calls (r ∷ []), new.waiting);
    prompt_counted = ground (arith, c.prompt_counted, sum_by-append prompt_of b.calls (r ∷ []));
    prompt_fits = new.prompt_fits;
    requested_counted =
        ground (arith, c.requested_counted, sum_by-append requested_of b.calls (r ∷ []));
    requested_fits = new.requested_fits;
    ids_differ = rw map-append (distinct-snoc r.id (map id_of b.calls) c.ids_differ new.fresh);
    keys_differ =
        rw (pending-snoc, map-append) (distinct-snoc r.id (keys b.pending) c.keys_differ no_key);
    backed = rw pending-snoc backed-snoc;
    all_open = rw pending-snoc (
        ground (
          arith,
          c.all_open,
          new.waiting,
          sum_by-append is_open b.calls (r ∷ []),
          length-append b.pending ((r.id, opened r (length b.calls)) ∷ []),
        ));
    error_fits = c.error_fits;
  }

-- The documented conditions of an admission.
pub record IsAdmissible (q : Request) (b : TokenBudget) : Type 0 where
  pub input_valid : valid_counter q.estimated_input ≡ true
  pub output_valid : in_range 1 32_768 q.max_output ≡ true
  pub prompt_valid : in_range 1 max_prompt_bytes q.prompt_bytes ≡ true
  pub phase_known : str_mem q.phase model_call_phases ≡ true
  pub tokens_fit : number q.estimated_input + number q.max_output ≤ remaining b
  pub call_left : length b.calls < b.max_calls
  pub prompt_fits : b.prompt_bytes + number q.prompt_bytes ≤ max_total_prompt_bytes
  pub requested_fits : b.output_requested + number q.max_output ≤ max_output_tokens_requested

not_exhausted_iff :
    (q : Request) (b : TokenBudget)
    → (bad_request_limits q ≡ false) × (exhausted q b ≡ false) ↔ IsAdmissible q b
unfolding can_spend
not_exhausted_iff q b = (
  λ h. record {
    input_valid = ground (arith, h.0);
    output_valid = ground (arith, h.0);
    prompt_valid = ground (arith, h.0);
    phase_known = ground (arith, h.1);
    tokens_fit = ground (arith, h.1);
    call_left = ground (arith, h.1);
    prompt_fits = ground (arith, h.1);
    requested_fits = ground (arith, h.1);
  },
  λ a. (
    ground (arith, a.input_valid, a.output_valid, a.prompt_valid),
    ground (arith, a.phase_known, a.tokens_fit, a.call_left, a.prompt_fits, a.requested_fits),
  ),
)

-- An outcome of `reserve`: a rejection that is counted, an error, or an admission.
pub data Decision (call_id : String) (q : Request) (b : TokenBudget) : Type 0 where
  refused :
      (code : String) (why : ¬ IsAdmissible q b)
      → has_length 0 80 code ≡ true
      → reserve call_id q b ≡ (ok none, reject code b)
      → Decision call_id q b
  invalid :
      (why : valid_receipt (new_receipt call_id q) ≡ false)
      → reserve call_id q b ≡ (raise validation_error, b)
      → Decision call_id q b
  admitted :
      (valid : valid_receipt (new_receipt call_id q) ≡ true)
      → IsAdmissible q b
      → reserve call_id q b ≡ (ok (some call_id), dispatch (new_receipt call_id q) b)
      → Decision call_id q b

pub decision : (call_id : String) (q : Request) (b : TokenBudget) → Decision call_id q b
unfolding reserve has_length
decision call_id q b = elim (Bool-cases (bad_request_limits q)) [
  | inl bad ↦
      refused "invalid_request_limits" (λ a. cc (bad, ((not_exhausted_iff q b).1 a).0)) refl
        (rw bad)
  | inr fine ↦ elim (Bool-cases (exhausted q b)) [
    | inl full ↦
        refused "budget_exhausted" (λ a. cc (full, ((not_exhausted_iff q b).1 a).1)) refl
          (rw (fine, full))
    | inr left ↦ elim (Bool-cases (valid_receipt (new_receipt call_id q))) [
      | inl v ↦ admitted v ((not_exhausted_iff q b).0 (fine, left)) (rw (fine, left, v))
      | inr v ↦ invalid v (rw (fine, left, v))
    ]
  ]
]

-- `reserve` keeps the accounts, whatever it decides, for an identifier that no call has.
pub reserve-IsConsistent :
    (call_id : String) (q : Request) (b : TokenBudget)
    → str_mem call_id (map id_of b.calls) ≡ false
    → IsConsistent b
    → IsConsistent (reserve call_id q b).1
unfolding reject new_receipt
reserve-IsConsistent call_id q b fresh c = elim (decision call_id q b) [
  | refused code why fits e ↦ rw e (record {
    limit_fits = c.limit_fits;
    room = c.room;
    input_counted = c.input_counted;
    output_counted = c.output_counted;
    creation_counted = c.creation_counted;
    read_counted = c.read_counted;
    kept_counted = c.kept_counted;
    prompt_counted = c.prompt_counted;
    prompt_fits = c.prompt_fits;
    requested_counted = c.requested_counted;
    requested_fits = c.requested_fits;
    ids_differ = c.ids_differ;
    keys_differ = c.keys_differ;
    backed = c.backed;
    all_open = c.all_open;
    error_fits = fits;
  })
  | invalid why e ↦ rw e c
  | admitted valid a e ↦ rw e (
      dispatch-IsConsistent b (new_receipt call_id q) c (record {
        fresh = fresh;
        waiting = refl;
        unused = refl;
        room = a.call_left;
        prompt_fits = a.prompt_fits;
        requested_fits = a.requested_fits;
      }))
]

-- `reserve` returns an identifier exactly when the limits, the phase and the totals admit the
-- request and its receipt can be built.
pub reserve-admits_iff :
    (call_id : String) (q : Request) (b : TokenBudget)
    → ((reserve call_id q b).0 ≡ ok (some call_id))
      ↔ (IsAdmissible q b × (valid_receipt (new_receipt call_id q) ≡ true))
reserve-admits_iff call_id q b = elim (decision call_id q b) [
  | refused code why fits e ↦
      (λ h. absurd (cc (ap (λ (o : Outcome (Option String)). o.0) e)), λ h. absurd (why h.0))
  | invalid why e ↦
      (λ h. absurd (cc (ap (λ (o : Outcome (Option String)). o.0) e)), λ h. absurd (cc))
  | admitted valid a e ↦ (λ h. (a, valid), λ h. ap (λ (o : Outcome (Option String)). o.0) e)
]

held-dispatch :
    (b : TokenBudget) (r : ModelCallReceipt)
    → IsConsistent b
    → str_mem r.id (map id_of b.calls) ≡ false
    → held (dispatch r b).pending
      ≡ held b.pending + (r.estimated_input_tokens + r.requested_output_tokens)
unfolding dispatch
held-dispatch b r c fresh =
    rw
      (insert_absent r.id (opened r (length b.calls)) b.pending
        (absent_key b.calls b.pending r.id c.backed fresh))
      (omega (
        arith,
        sum_by-append {0} (λ (e : String × Reservation). e.1.amount) b.pending
            ((r.id, opened r (length b.calls)) ∷ []),
      ))

-- An admitted call takes its estimate and its output limit from what remains, exactly, and never
-- more than remains; a call that is not admitted leaves what remains as it was.
pub reserve-remaining :
    (call_id : String) (q : Request) (b : TokenBudget)
    → IsConsistent b
    → str_mem call_id (map id_of b.calls) ≡ false
    → (((reserve call_id q b).0 ≡ ok (some call_id))
        × (remaining (reserve call_id q b).1 + (number q.estimated_input + number q.max_output)
            ≡ remaining b))
      ⊎ (((reserve call_id q b).0 ≢ ok (some call_id))
          × (remaining (reserve call_id q b).1 ≡ remaining b)
          × ((reserve call_id q b).1.calls ≡ b.calls))
unfolding reject
reserve-remaining call_id q b c fresh = elim (decision call_id q b) [
  | refused code why fits e ↦ rw e (inr (λ h. cc, refl, refl))
  | invalid why e ↦ rw e (inr (λ h. cc, refl, refl))
  | admitted valid a e ↦ rw e (
      inl (
        refl,
        unfold dispatch new_receipt in
            omega (arith, a.tokens_fit, held-dispatch b (new_receipt call_id q) c fresh),
      ))
]
