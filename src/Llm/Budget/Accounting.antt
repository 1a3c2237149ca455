-- ===== src/Llm/Budget/Accounting.antt =====
-- `settle` of scanner/src/aegify/llm/budget.py: what it changes, and the accounts after it.
use aegify.Base.{
  ℕ, ◌+◌, ◌-◌, ◌≤◌, ◌≡◌, refl, ap, ◌∙◌, Bool, true, false, not, ◌&&◌, String, none, some, List, [],
  ◌∷◌, map, arith, if◌then◌else◌, str_eq, str_mem, eq_iff, get_elem?, set, sum_by, All, distinct,
  keys, lookup, remove, Bool-cases, Option-cases, inl, inr, ◌⊎◌, ok, raise, sum_by-set, length-set,
  get_elem?-set_ne, All-of_remove, All-lookup, keys-remove_absent, distinct-remove, length-remove,
  sum_by-remove, Dict,
}
use aegify.Models.Values.{has_length}
use aegify.Models.Receipts.{
  ModelCallReceipt, is_dispatched, valid_receipt, valid_labels, no_counters, has_both, sum_counters,
}
use aegify.Llm.Budget.State.{
  TokenBudget, Reservation, Error, validation_error, absent_reservation, bad_usage_counter,
  incomplete_usage, Outcome, remaining, reserved, total_used,
}
use aegify.Llm.Budget.Settle.{
  Settlement, counters, bad_usage, settled_receipt, publish, settle, FinalState,
}
use aegify.Llm.Budget.Invariant.{
  IsBacked, IsConsistent, id_of, input_of, output_of, creation_of, read_of, prompt_of, requested_of,
  is_open, kept_settled, map-id-set,
}

-- A call that `settle` publishes: its reservation, and the receipts before and after.
pub record IsPublished (call_id : String) (s : Settlement) (b : TokenBudget) : Type 0 where
  pub reservation : Reservation
  pub previous : ModelCallReceipt
  pub found : lookup call_id b.pending ≡ some reservation
  pub placed : get_elem? b.calls reservation.index ≡ some previous
  pub usage_valid : bad_usage s.usage ≡ false
  pub usage_whole : (s.usage_complete && not (has_both (counters s.usage))) ≡ false
  pub valid : valid_receipt (settled_receipt s previous) ≡ true
  pub result :
      settle call_id s b ≡ (ok tt, publish s call_id reservation (settled_receipt s previous) b)

abbrev pub Raises : String → Settlement → TokenBudget → Type 0
Raises call_id s b = (e : Error) × (settle call_id s b ≡ (raise e, b))

-- `settle` either publishes, or raises and changes nothing.
pub settle-cases :
    (call_id : String) (s : Settlement) (b : TokenBudget)
    → IsPublished call_id s b ⊎ Raises call_id s b
unfolding settle
settle-cases call_id s b = elim (Option-cases (lookup call_id b.pending)) [
  | inl e ↦ inr (absent_reservation, rw e)
  | inr (p, e) ↦ elim (Bool-cases (bad_usage s.usage)) [
    | inl bad ↦ inr (bad_usage_counter, rw (e, bad))
    | inr fine ↦ elim (Bool-cases (s.usage_complete && not (has_both (counters s.usage)))) [
      | inl part ↦ inr (incomplete_usage, rw (e, fine, part))
      | inr whole ↦ elim (Option-cases (get_elem? b.calls p.index)) [
        | inl g ↦ inr (validation_error, rw (e, fine, whole, g))
        | inr (previous, g) ↦ elim (Bool-cases (valid_receipt (settled_receipt s previous))) [
          | inl v ↦ inl (record {
            reservation = p;
            previous = previous;
            found = e;
            placed = g;
            usage_valid = fine;
            usage_whole = whole;
            valid = v;
            result = rw (e, fine, whole, g, v);
          })
          | inr v ↦ inr (validation_error, rw (e, fine, whole, g, v))
        ]
      ]
    ]
  ]
]

-- Two calls at one index are one call.
same_name :
    (calls : List ModelCallReceipt) (i : ℕ) (u : ModelCallReceipt) (e : String × Reservation)
    → get_elem? calls i ≡ some u
    → IsBacked calls e
    → i ≡ e.1.index
    → e.0 ≡ u.id
same_name calls i u e h k p = cc (h, k.found, p, k.named)

replace-IsBacked :
    (calls : List ModelCallReceipt) (i : ℕ) (u v : ModelCallReceipt) (e : String × Reservation)
    → get_elem? calls i ≡ some u
    → str_eq e.0 u.id ≡ false
    → IsBacked calls e
    → IsBacked (set calls i v) e
replace-IsBacked calls i u v e h n k = record {
  call = k.call;
  found =
      get_elem?-set_ne calls i e.1.index v
        (λ p. cc (n, (eq_iff e.0 u.id).1 (same_name calls i u e h k p)))
      ∙ k.found;
  named = k.named;
  waiting = k.waiting;
  unused = k.unused;
  amount = k.amount;
}

replace-All :
    (calls : List ModelCallReceipt) (i : ℕ) (u v : ModelCallReceipt) (d : Dict Reservation)
    → get_elem? calls i ≡ some u
    → str_mem u.id (keys d) ≡ false
    → All (IsBacked calls) d
    → All (IsBacked (set calls i v)) d
replace-All calls i u v [] h n a = tt
replace-All calls i u v (e ∷ d) h n a = (
  replace-IsBacked calls i u v e h (ground (arith, eq_iff e.0 u.id, eq_iff u.id e.0)) a.0,
  replace-All calls i u v d h (ground arith) a.1,
)

-- What a published receipt keeps beside its reservation's share.
kept-settled :
    (s : Settlement) (previous : ModelCallReceipt)
    → kept_settled (settled_receipt s previous) ≡ (
        if s.usage_complete
        then 0
        else previous.estimated_input_tokens
          + previous.requested_output_tokens
          - sum_counters (counters s.usage))
unfolding settled_receipt
kept-settled s previous = elim (state_cases s.state) [
  | inl e ↦ rw e (ground arith)
  | inr (inl e) ↦ rw e (ground arith)
  | inr (inr e) ↦ rw e (ground arith)
]
  where
    state_cases :
        (f : FinalState)
        → (f ≡ FinalState.completed) ⊎ ((f ≡ FinalState.rejected) ⊎ (f ≡ FinalState.unknown))
    state_cases FinalState.completed = inl refl
    state_cases FinalState.rejected = inr (inl refl)
    state_cases FinalState.unknown = inr (inr refl)

not_open-settled :
    (s : Settlement) (previous : ModelCallReceipt)
    → is_dispatched (settled_receipt s previous).state ≡ false
unfolding settled_receipt
not_open-settled s previous = ground arith

-- The error code of a valid receipt fits its field.
error_fits : (r : ModelCallReceipt) → valid_receipt r ≡ true → has_length 0 80 r.error_code ≡ true
unfolding valid_receipt valid_labels
error_fits r v = ground arith

module _ (call_id : String) (s : Settlement) (b : TokenBudget) (c : IsConsistent b)
    (p : IsPublished call_id s b) where
  i : ℕ
  i = p.reservation.index

  receipt : ModelCallReceipt
  receipt = settled_receipt s p.previous

  after : TokenBudget
  after = publish s call_id p.reservation (settled_receipt s p.previous) b

  backing : IsBacked b.calls (call_id, p.reservation)
  backing = All-lookup (IsBacked b.calls) call_id p.reservation b.pending c.backed p.found

  same_call : backing.call ≡ p.previous
  unfolding backing
  same_call = cc (backing.found, p.placed)

  previous_open : is_dispatched p.previous.state ≡ true
  previous_open = cc (same_call, backing.waiting)

  previous_unused : p.previous.reported_usage ≡ no_counters
  previous_unused = cc (same_call, backing.unused)

  previous_named : p.previous.id ≡ call_id
  previous_named = cc (same_call, backing.named)

  amount_of :
      p.reservation.amount ≡ p.previous.estimated_input_tokens + p.previous.requested_output_tokens
  amount_of = cc (same_call, backing.amount)

  moved :
      (f : ModelCallReceipt → ℕ)
      → sum_by f (set b.calls i receipt) + f p.previous ≡ sum_by f b.calls + f receipt
  unfolding i receipt
  moved f = sum_by-set f b.calls p.reservation.index p.previous _ p.placed

  settled_backed : All (IsBacked (set b.calls i receipt)) (remove call_id b.pending)
  unfolding i receipt
  settled_backed =
      replace-All b.calls p.reservation.index p.previous (settled_receipt s p.previous)
        (remove call_id b.pending) p.placed
        (rw previous_named (keys-remove_absent call_id b.pending c.keys_differ))
        (All-of_remove (IsBacked b.calls) call_id b.pending c.backed)

  ids_kept : distinct (map id_of (set b.calls i receipt)) ≡ true
  unfolding i receipt settled_receipt
  ids_kept =
      rw
        (map-id-set b.calls p.reservation.index p.previous (settled_receipt s p.previous) p.placed
          refl)
        c.ids_differ

  new_error_fits : has_length 0 80 (after).last_error ≡ true
  unfolding after publish settled_receipt
  new_error_fits = ground (arith, c.error_fits, error_fits (settled_receipt s p.previous) p.valid)

  publish-IsConsistent : IsConsistent after
  unfolding after publish i receipt
  publish-IsConsistent = record {
    limit_fits = c.limit_fits;
    room = omega (arith, c.room, length-set b.calls i receipt);
    input_counted = λ l.
        unfold settled_receipt in
        ground (arith, c.input_counted l, moved input_of, previous_unused);
    output_counted = λ l.
        unfold settled_receipt in
        ground (arith, c.output_counted l, moved output_of, previous_unused);
    creation_counted =
        unfold settled_receipt in
        ground (arith, c.creation_counted, moved creation_of, previous_unused);
    read_counted =
        unfold settled_receipt in ground (arith, c.read_counted, moved read_of, previous_unused);
    kept_counted = ground (
      arith,
      c.kept_counted,
      moved kept_settled,
      previous_open,
      kept-settled s p.previous,
      amount_of,
    );
    prompt_counted = unfold settled_receipt in ground (arith, c.prompt_counted, moved prompt_of);
    prompt_fits = c.prompt_fits;
    requested_counted =
        unfold settled_receipt in ground (arith, c.requested_counted, moved requested_of);
    requested_fits = c.requested_fits;
    ids_differ = ids_kept;
    keys_differ = distinct-remove call_id b.pending c.keys_differ;
    backed = settled_backed;
    all_open = ground (
      arith,
      c.all_open,
      moved is_open,
      previous_open,
      not_open-settled s p.previous,
      length-remove call_id p.reservation b.pending p.found,
    );
    error_fits = unfold after in new_error_fits;
  }

-- `settle` keeps the accounts, whether it publishes or raises.
pub settle-IsConsistent :
    (call_id : String) (s : Settlement) (b : TokenBudget)
    → IsConsistent b
    → IsConsistent (settle call_id s b).1
settle-IsConsistent call_id s b c = elim (settle-cases call_id s b) [
  | inl p ↦ rw p.result (unfold after in publish-IsConsistent call_id s b c p)
  | inr (e, r) ↦ rw r c
]

-- The tokens that a budget counts as used or held.
abbrev pub committed : TokenBudget → ℕ
committed b = total_used b + reserved b

publish-committed :
    (call_id : String) (s : Settlement) (b : TokenBudget) (p : IsPublished call_id s b)
    → (s.usage_complete ≡ true
        → committed (publish s call_id p.reservation (settled_receipt s p.previous) b)
            + p.reservation.amount
          ≡ committed b + sum_counters (counters s.usage))
      × (s.usage_complete ≡ false
          → committed (publish s call_id p.reservation (settled_receipt s p.previous) b)
            ≡ committed b + (sum_counters (counters s.usage) - p.reservation.amount))
unfolding publish
publish-committed call_id s b p = (
  λ t. rw t (
      omega (
        arith,
        sum_by-remove {0} (λ (e : String × Reservation). e.1.amount) call_id p.reservation b.pending
            p.found,
      )),
  λ t. rw t (
      omega (
        arith,
        sum_by-remove {0} (λ (e : String × Reservation). e.1.amount) call_id p.reservation b.pending
            p.found,
      )),
)

eq_if : (t : Bool) (x y z : ℕ) → (t ≡ true → x ≡ y) → (t ≡ false → x ≡ z) → x ≡ (if t then y else z)
eq_if true x y z f g = f refl
eq_if false x y z f g = g refl

-- A settled call with complete usage gives its reservation back and takes the reported counters;
-- with incomplete usage the reservation stays, and only what passes it is taken on top.
pub settle-committed :
    (call_id : String) (s : Settlement) (b : TokenBudget) (p : Reservation)
    → lookup call_id b.pending ≡ some p
    → (settle call_id s b).0 ≡ ok tt
    → committed (settle call_id s b).1 ≡ (
        if s.usage_complete
        then committed b + sum_counters (counters s.usage) - p.amount
        else committed b + (sum_counters (counters s.usage) - p.amount))
settle-committed call_id s b p found done = elim (settle-cases call_id s b) [
  | inl d ↦
      let same : p ≡ d.reservation = cc (found, d.found) in
      let (whole, part) = publish-committed call_id s b d in
      rw (d.result, same) (eq_if s.usage_complete _ _ _ (λ e. omega (arith, whole e)) part)
  | inr (e, r) ↦ absurd (cc (done, ap (λ (o : Outcome (Unit {0})). o.0) r))
]

-- A call that `settle` refuses leaves the budget as it was.
pub settle-raise :
    (call_id : String) (s : Settlement) (b : TokenBudget) (e : Error)
    → (settle call_id s b).0 ≡ raise e
    → (settle call_id s b).1 ≡ b
settle-raise call_id s b e h = elim (settle-cases call_id s b) [
  | inl d ↦ absurd (cc (h, ap (λ (o : Outcome (Unit {0})). o.0) d.result))
  | inr (e', r) ↦ ap (λ (o : Outcome (Unit {0})). o.1) r
]

-- Without complete usage no settlement, refused or not, replenishes the budget.
pub settle-remaining-le :
    (call_id : String) (s : Settlement) (b : TokenBudget)
    → s.usage_complete ≡ false
    → remaining (settle call_id s b).1 ≤ remaining b
settle-remaining-le call_id s b part = elim (settle-cases call_id s b) [
  | inl d ↦ rw d.result (unfold publish in omega (arith, (publish-committed call_id s b d).1 part))
  | inr (e, r) ↦ rw r (omega arith)
]

lookup_absent : (k : String) (d : Dict Reservation) → str_mem k (keys d) ≡ false → lookup k d ≡ none
lookup_absent k [] h = refl
lookup_absent k ((j, v) ∷ d) h = ground (arith, eq_iff j k, eq_iff k j, lookup_absent k d)

-- A call settles once: a second settlement raises, and changes nothing.
pub settle_once :
    (call_id : String) (s t : Settlement) (b : TokenBudget)
    → IsConsistent b
    → (settle call_id s b).0 ≡ ok tt
    → settle call_id t (settle call_id s b).1 ≡ (raise absent_reservation, (settle call_id s b).1)
settle_once call_id s t b c done = elim (settle-cases call_id s b) [
  | inl d ↦ rw d.result (
      unfold settle publish in
      rw (
        lookup_absent call_id (remove call_id b.pending)
          (keys-remove_absent call_id b.pending c.keys_differ)))
  | inr (e, r) ↦ absurd (cc (done, ap (λ (o : Outcome (Unit {0})). o.0) r))
]
