-- ===== src/Agents/Checkpoint/Starts.antt =====
-- How `CheckpointBackend` resumes a session from its file
-- (scanner/src/aegify/agents/checkpoint.py).
use aegify.Base.{
  ◌≡◌, refl, subst, true, false, String, Option, none, some, List, arith, any, str_eq, Result, ok,
  raise, Bool-cases, inl, inr,
}
use aegify.Llm.Budget.State.{TokenBudget, Outcome}
use aegify.Models.Receipts.{TokenUsage, is_nil}
use aegify.Llm.Budget.Usage.{restore_usage}
use aegify.Agents.Checkpoint.Records.{State, uncertain, valid_state}
use aegify.Agents.Checkpoint.Turns.{CheckpointBackend}
use aegify.Agents.Checkpoint.Sessions.{StartError, resume, restore, with_budget, opened}

-- How a resumed session begins.
pub record IsResumed {R : Type 0} (s : State R) (sent : List String) (m : CheckpointBackend R)
    : Type 0 where
  pub held : m.state ≡ s
  pub on_file : m.file ≡ some s
  pub sent_before : m.sent ≡ sent
  pub going : m.failed ≡ false
  pub holds_lock : m.locked ≡ true
  pub first : m.cursor ≡ 0
  pub certain : any uncertain s.records ≡ false
  pub valid : valid_state s ≡ true

module _ {R : Type 0} (s : State R) (sent : List String) (sure : any uncertain s.records ≡ false)
    (v : valid_state s ≡ true) where
  abbrev begun : (budget : Option TokenBudget) → IsResumed s sent (opened s budget (some s) sent)
  begun budget = record {
    held = refl;
    on_file = refl;
    sent_before = refl;
    going = refl;
    holds_lock = refl;
    first = refl;
    certain = sure;
    valid = v;
  }

  abbrev started : CheckpointBackend R → Result StartError (CheckpointBackend R)
  started x = ok x

  ok_eq : {x y : CheckpointBackend R} → IsResumed s sent x → started x ≡ ok y → IsResumed s sent y
  ok_eq i h = subst (IsResumed s sent) (ground arith) i

  with_budget-IsResumed :
      (o : Outcome (Unit {0})) (m : CheckpointBackend R)
      → with_budget s sent o ≡ ok m
      → IsResumed s sent m
  with_budget-IsResumed (ok x, b) m h = ok_eq (begun (some b)) h
  with_budget-IsResumed (raise e, b) m h = absurd (cc)

  restore-IsResumed :
      (budget : Option TokenBudget) (usage : Option TokenUsage) (m : CheckpointBackend R)
      → restore s sent budget usage ≡ ok m
      → IsResumed s sent m
  restore-IsResumed none usage m h = ok_eq (begun none) h
  restore-IsResumed (some b) none m h = elim (Bool-cases (is_nil s.records)) [
    | inl e ↦ ok_eq (begun (some b)) (rw e at h)
    | inr e ↦ absurd (ground arith)
  ]
  restore-IsResumed (some b) (some usage) m h = with_budget-IsResumed (restore_usage usage b) m h

module _ {R : Type 0} where
  -- A session resumes only from a valid file of the same identity without a pending record.
  pub resume-IsResumed :
      (digest : String) (budget : Option TokenBudget) (s : State R) (sent : List String)
      (m : CheckpointBackend R)
      → resume digest budget (some s) sent ≡ ok m
      → IsResumed s sent m
  unfolding resume
  resume-IsResumed digest budget s sent m h = elim (Bool-cases (valid_state s)) [
    | inr bad ↦ absurd (ground arith)
    | inl v ↦ elim (Bool-cases (str_eq s.identity_digest digest)) [
      | inr moved ↦ absurd (ground arith)
      | inl same ↦ elim (Bool-cases (any uncertain s.records)) [
        | inl out ↦ absurd (ground arith)
        | inr sure ↦ restore-IsResumed s sent sure v budget s.usage m (rw (v, same, sure) at h)
      ]
    ]
  ]
