-- ===== src/Llm/Budget/Snapshots.antt =====
-- `get_token_usage` and `restore_usage` of scanner/src/aegify/llm/budget.py: snapshots of
-- consistent accounts, and their restoration.
use aegify.Base.{
  ◌+◌, ◌≤◌, ◌≡◌, refl, ap, sym, ◌∙◌, subst, Bool, true, false, List, [], ◌∷◌, arith, if◌then◌else◌,
  length, sum_by, any, Bool-cases, inl, inr, ◌⊎◌, Result, ok, raise, Dict,
}
use aegify.Models.Receipts.{
  ModelCallReceipt, TokenUsage, is_dispatched, unreported, valid_usage, is_nil, is_legacy, usage_eq,
  usage_eq_iff,
}
use aegify.Llm.Budget.State.{
  TokenBudget, Reservation, Error, validation_error, Outcome, unused, total_used, reserved, held,
  estimated_cost_usd, budget_in_use, unbounded_receipts, snapshot_disagrees,
}
use aegify.Llm.Budget.Usage.{
  snapshot, overall_status, get_token_usage, kept, recount, recount_all, candidate, adopt,
  restore_usage, in_use, unbounded,
}
use aegify.Llm.Budget.Invariant.{
  IsConsistent, input_of, output_of, creation_of, read_of, prompt_of, requested_of, is_open,
  kept_settled,
}

unreported-le : (calls : List ModelCallReceipt) → sum_by unreported calls ≤ length calls
unreported-le [] = omega arith
unreported-le (c ∷ cs) = ground (arith, unreported-le cs)

nil_of_length : (d : Dict Reservation) → length d ≡ 0 → d ≡ []
nil_of_length [] h = refl
nil_of_length (e ∷ d) h = absurd (omega arith)

-- The figures of consistent accounts with no call are all zero.
record IsUntouched (b : TokenBudget) : Type 0 where
  used : total_used b ≡ 0
  holds : reserved b ≡ 0
  prompt : b.prompt_bytes ≡ 0
  requested : b.output_requested ≡ 0

untouched :
    (b : TokenBudget) → IsConsistent b → b.calls ≡ [] → b.legacy_usage ≡ false → IsUntouched b
untouched b c e l =
    let none_open : b.pending ≡ [] =
      nil_of_length b.pending (sym c.all_open ∙ ap (sum_by is_open) e) in
    record {
      used = omega (
        arith,
        c.input_counted l ∙ ap (sum_by input_of) e,
        c.output_counted l ∙ ap (sum_by output_of) e,
        c.creation_counted ∙ ap (sum_by creation_of) e,
        c.read_counted ∙ ap (sum_by read_of) e,
      );
      holds = omega (arith, c.kept_counted ∙ ap (sum_by kept_settled) e, ap held none_open);
      prompt = c.prompt_counted ∙ ap (sum_by prompt_of) e;
      requested = c.requested_counted ∙ ap (sum_by requested_of) e;
    }

-- The validators accept the snapshot, by whether there are calls and caller-supplied counters.
accepted :
    (b : TokenBudget) (calls : List ModelCallReceipt) (legacy : Bool)
    → IsConsistent b
    → b.calls ≡ calls
    → b.legacy_usage ≡ legacy
    → valid_usage (snapshot b) ≡ true
unfolding valid_usage estimated_cost_usd
accepted b [] false c e l =
    let u = untouched b c e l in
    ground (arith, u.used, u.holds, u.prompt, u.requested, c.error_fits, e, l)
accepted b [] true c e l = ground (arith, c.error_fits, e, l)
accepted b (x ∷ xs) legacy c e l =
    ground (arith, c.error_fits, c.room, c.limit_fits, unreported-le b.calls, e, l)

-- A snapshot of consistent accounts is always built: `get_token_usage` never raises there.
pub get_token_usage-ok : (b : TokenBudget) → IsConsistent b → get_token_usage b ≡ ok (snapshot b)
unfolding get_token_usage
get_token_usage-ok b c = rw (accepted b b.calls b.legacy_usage c refl refl)

-- The loop of `restore_usage` adds each receipt's figures.
recount_all-sums :
    (b : TokenBudget) (calls : List ModelCallReceipt)
    → recount_all b calls ≡ record b {
      input_tokens_used = b.input_tokens_used + sum_by input_of calls;
      output_tokens_used = b.output_tokens_used + sum_by output_of calls;
      cache_creation = b.cache_creation + sum_by creation_of calls;
      cache_read = b.cache_read + sum_by read_of calls;
      prompt_bytes = b.prompt_bytes + sum_by prompt_of calls;
      output_requested = b.output_requested + sum_by requested_of calls;
      unknown_reservations = b.unknown_reservations + sum_by kept calls;
    }
unfolding recount_all
recount_all-sums b [] = ground arith
recount_all-sums b (call ∷ rest) = recount_all-sums (recount b call) rest ∙ ground arith

kept-eq-settled :
    (calls : List ModelCallReceipt)
    → sum_by is_open calls ≡ 0
    → sum_by kept calls ≡ sum_by kept_settled calls
kept-eq-settled [] h = refl
kept-eq-settled (c ∷ cs) h = ground (arith, kept-eq-settled cs)

none_dispatched :
    (calls : List ModelCallReceipt)
    → sum_by is_open calls ≡ 0
    → any (λ (call : ModelCallReceipt). is_dispatched call.state) calls ≡ false
none_dispatched [] h = refl
none_dispatched (c ∷ cs) h = ground (arith, none_dispatched cs)

module _ (b : TokenBudget) (c : IsConsistent b) (l : b.legacy_usage ≡ false)
    (p : b.pending ≡ []) where
  all_settled : sum_by is_open b.calls ≡ 0
  all_settled = c.all_open ∙ ap length p

  candidate-snapshot : candidate (snapshot b) (unused b.total_budget b.max_calls) ≡ b
  unfolding candidate
  candidate-snapshot = rw recount_all-sums (
      ground (
        arith,
        c.input_counted l,
        c.output_counted l,
        c.creation_counted,
        c.read_counted,
        c.kept_counted,
        c.prompt_counted,
        c.requested_counted,
        kept-eq-settled b.calls all_settled,
        l,
        p,
      ))

  adopted : adopt b (unused b.total_budget b.max_calls) ≡ b
  unfolding adopt
  adopted = ground (arith, l, p)

  not_legacy : is_legacy (overall_status b) ≡ false
  not_legacy = ground (arith, l)

  bounded : unbounded (snapshot b) b ≡ false
  bounded = ground (arith, not_legacy, c.room, c.ids_differ, none_dispatched b.calls all_settled)

  restores : restore_usage (snapshot b) (unused b.total_budget b.max_calls) ≡ (ok tt, b)
  unfolding restore_usage
  restores = rw (
    bounded,
    candidate-snapshot,
    get_token_usage-ok b c,
    (usage_eq_iff (snapshot b) (snapshot b)).1 refl,
    adopted,
  )

-- Saving the usage of settled native accounts and restoring it into an unused budget of the same
-- limits gives back exactly those accounts.
pub restore_usage-get_token_usage :
    (b : TokenBudget) (usage : TokenUsage)
    → IsConsistent b
    → b.legacy_usage ≡ false
    → b.pending ≡ []
    → get_token_usage b ≡ ok usage
    → restore_usage usage (unused b.total_budget b.max_calls) ≡ (ok tt, b)
restore_usage-get_token_usage b usage c l p e =
    let same : snapshot b ≡ usage = ground (arith, get_token_usage-ok b c) in
    subst (λ u. restore_usage u (unused b.total_budget b.max_calls) ≡ (ok tt, b)) same
      (restores b c l p)

nil_of_is_nil {ℓ} : {A : Type ℓ} (xs : List A) → is_nil xs ≡ true → xs ≡ []
nil_of_is_nil [] h = refl
nil_of_is_nil (x ∷ xs) h = absurd (cc)

recount_all-legacy :
    (b : TokenBudget) (calls : List ModelCallReceipt)
    → (recount_all b calls).legacy_usage ≡ b.legacy_usage
recount_all-legacy b calls = rw recount_all-sums

recount_all-pending :
    (b : TokenBudget) (calls : List ModelCallReceipt) → (recount_all b calls).pending ≡ b.pending
recount_all-pending b calls = rw recount_all-sums

-- Adopting a candidate into a budget without open calls makes the candidate's snapshot its own.
snapshot-adopt :
    (usage : TokenUsage) (b : TokenBudget)
    → b.legacy_usage ≡ false
    → b.pending ≡ []
    → snapshot (adopt (candidate usage b) b) ≡ snapshot (candidate usage b)
unfolding adopt candidate estimated_cost_usd
snapshot-adopt usage b l p = ground (
  arith,
  l,
  p,
  recount_all-legacy (record (unused b.total_budget b.max_calls) { calls = usage.calls })
      usage.calls,
  recount_all-pending (record (unused b.total_budget b.max_calls) { calls = usage.calls })
      usage.calls,
)

-- A restoration that succeeds.
record IsRestored (usage : TokenUsage) (b : TokenBudget) : Type 0 where
  idle : in_use b ≡ false
  bounds : unbounded usage b ≡ false
  agrees : get_token_usage (candidate usage b) ≡ ok usage
  result : restore_usage usage b ≡ (ok tt, adopt (candidate usage b) b)

abbrev FailsRestore : TokenUsage → TokenBudget → Type 0
FailsRestore usage b = (e : Error) × (restore_usage usage b ≡ (raise e, b))

Result-cases :
    (r : Result Error TokenUsage) → ((u : TokenUsage) × (r ≡ ok u)) ⊎ ((e : Error) × (r ≡ raise e))
Result-cases (ok u) = inl (u, refl)
Result-cases (raise e) = inr (e, refl)

-- A restoration succeeds, or raises and changes nothing.
restore-cases : (usage : TokenUsage) (b : TokenBudget) → IsRestored usage b ⊎ FailsRestore usage b
unfolding restore_usage
restore-cases usage b = elim (Bool-cases (in_use b)) [
  | inl t ↦ inr (budget_in_use, rw t)
  | inr idle ↦ elim (Bool-cases (unbounded usage b)) [
    | inl t ↦ inr (unbounded_receipts, rw (idle, t))
    | inr bounds ↦ elim (Result-cases (get_token_usage (candidate usage b))) [
      | inr (e, g) ↦ inr (e, rw (idle, bounds, g))
      | inl (u, g) ↦ elim (Bool-cases (usage_eq u usage)) [
        | inr n ↦ inr (snapshot_disagrees, rw (idle, bounds, g, n))
        | inl y ↦ inl (record {
          idle = idle;
          bounds = bounds;
          agrees = g ∙ ap ok ((usage_eq_iff u usage).0 y);
          result = rw (idle, bounds, g, y);
        })
      ]
    ]
  ]
]

candidate-kept :
    (usage : TokenUsage) (b : TokenBudget)
    → ((candidate usage b).total_budget ≡ b.total_budget)
      × ((candidate usage b).calls ≡ usage.calls)
unfolding candidate
candidate-kept usage b = (rw recount_all-sums, rw recount_all-sums)

-- `get_token_usage` reads no more than the snapshot.
get_token_usage-cong :
    (b c : TokenBudget) → snapshot b ≡ snapshot c → get_token_usage b ≡ get_token_usage c
unfolding get_token_usage
get_token_usage-cong b c e = ap (λ s. if valid_usage s then ok s else raise validation_error) e

-- A restoration that succeeds was made on an unused budget, keeps its limits, and leaves accounts
-- whose snapshot is the usage that was restored; the receipts fit the call limit, have distinct
-- identifiers and are all settled.
pub restore_usage_sound :
    (usage : TokenUsage) (b : TokenBudget)
    → (restore_usage usage b).0 ≡ ok tt
    → (get_token_usage (restore_usage usage b).1 ≡ ok usage)
      × ((restore_usage usage b).1.total_budget ≡ b.total_budget)
      × ((restore_usage usage b).1.max_calls ≡ b.max_calls)
      × (in_use b ≡ false)
      × (unbounded usage b ≡ false)
restore_usage_sound usage b h = elim (restore-cases usage b) [
  | inr (e, r) ↦ absurd (cc (h, ap (λ (o : Outcome (Unit {0})). o.0) r))
  | inl d ↦ rw d.result (
    get_token_usage-cong (adopt (candidate usage b) b) (candidate usage b) (
          snapshot-adopt usage b (ground (arith, d.idle))
            (nil_of_is_nil b.pending (ground (arith, d.idle))))
        ∙ d.agrees,
    unfold adopt in refl,
    unfold adopt in refl,
    d.idle,
    d.bounds,
  )
]
