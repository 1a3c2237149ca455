-- ===== src/Agents/Checkpoint/Sessions.antt =====
-- How a session of `CheckpointBackend` begins (scanner/src/aegify/agents/checkpoint.py): a new
-- checkpoint, or one that is resumed from its file.
use aegify.Base.{
  true, false, not, String, Option, none, some, List, [], any, if◌then◌else◌, str_eq, Result, ok,
  raise,
}
use aegify.Models.Receipts.{TokenUsage, is_nil}
use aegify.Llm.Budget.State.{TokenBudget, Error, Outcome}
use aegify.Llm.Budget.Usage.{restore_usage}
use aegify.Agents.Checkpoint.Records.{State, valid_state, uncertain}
use aegify.Agents.Checkpoint.Turns.{CheckpointBackend, Save, saved, refused, torn}

pub data StartError : Type 0 where
  file_exists file_missing invalid_file not_saved : StartError
  identity_changed uncertain_dispatch missing_usage : StartError
  not_restored : Error → StartError

module _ {R : Type 0} where
  abbrev pub opened :
      State R → Option TokenBudget → Option (State R) → List String → CheckpointBackend R
  opened s budget file sent = record {
    state = s;
    cursor = 0;
    replayed_calls = 0;
    new_calls = 0;
    failed = false;
    locked = true;
    budget = budget;
    file = file;
    sent = sent;
  }

  abbrev pub new_state : String → State R
  new_state digest = record { identity_digest = digest; records = []; usage = none }

  -- `__init__` with `resume=False`. The destination must not exist.
  unfoldable pub create :
      String
      → Option TokenBudget
      → Option (State R)
      → Save
      → Result StartError (CheckpointBackend R)
  create digest budget (some s) w = raise file_exists
  create digest budget none saved =
      ok (opened (new_state digest) budget (some (new_state digest)) [])
  create digest budget none refused = raise not_saved
  create digest budget none torn = raise not_saved

  abbrev pub with_budget :
      State R → List String → Outcome (Unit {0}) → Result StartError (CheckpointBackend R)
  with_budget s sent (raise e, b) = raise (not_restored e)
  with_budget s sent (ok x, b) = ok (opened s (some b) (some s) sent)

  -- The budget part of `__init__` with `resume=True`.
  abbrev pub restore :
      State R
      → List String
      → Option TokenBudget
      → Option TokenUsage
      → Result StartError (CheckpointBackend R)
  restore s sent none usage = ok (opened s none (some s) sent)
  restore s sent (some b) none =
      if not (is_nil s.records) then raise missing_usage else ok (opened s (some b) (some s) sent)
  restore s sent (some b) (some usage) = with_budget s sent (restore_usage usage b)

  -- `__init__` with `resume=True`. What was sent before stays sent.
  unfoldable pub resume :
      String
      → Option TokenBudget
      → Option (State R)
      → List String
      → Result StartError (CheckpointBackend R)
  resume digest budget none sent = raise file_missing
  resume digest budget (some s) sent =
      if not (valid_state s)
      then raise invalid_file
      else if not (str_eq s.identity_digest digest)
      then raise identity_changed
      else if any uncertain s.records
      then raise uncertain_dispatch
      else restore s sent budget s.usage
