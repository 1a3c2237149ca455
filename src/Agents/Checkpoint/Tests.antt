-- ===== src/Agents/Checkpoint/Tests.antt =====
-- Sessions of a checkpoint (scanner/src/aegify/agents/checkpoint.py), and its theorems at them.
use aegify.Base.{
  ℕ, ◌≤◌, ◌≡◌, ◌≢◌, refl, true, false, Bool, String, none, some, List, [], ◌∷◌, ◌++◌, arith, length,
  codes, ltb, all, Option, any, ok, raise, if◌then◌else◌, Bool-cases, inl, inr, subst,
}
use aegify.Models.Values.{is_digest, has_length}
use aegify.Llm.Budget.State.{validation_error, unused, can_spend}
use aegify.Llm.Budget.Reserve.{reserve, new_receipt, dispatch}
use aegify.Llm.Budget.Settle.{settle, settled_receipt, publish}
use aegify.Models.Receipts.{valid_usage, valid_receipt, valid_labels, valid_usage_state}
use aegify.Llm.Redaction.{Json, redact}
use aegify.Agents.Exploration.Turns.{validate_turn}
use Prim.Native.String.{◌++◌ as ◌<>◌}
use aegify.Llm.Budget.Usage.{snapshot, get_token_usage}
use aegify.Llm.Budget.Reachable.{used-IsConsistent}
use aegify.Llm.Budget.Tests.{digest, start, closed, trace, is_native, no_pending, closed_usage}
use aegify.Agents.Checkpoint.Records.{
  Record, RecordState, State, Failure, Checks, uncertain, valid_state, valid_record,
  consistent_state, is_error_code, check_response, valid_document,
}
use aegify.Agents.Checkpoint.Turns.{
  CheckpointBackend, saved, refused, Turn, Surroundings, invoke_turn, new_turn, close_turn,
  set_last, finish,
}
use aegify.Agents.Checkpoint.Sessions.{create, resume, opened, new_state}
use aegify.Agents.Checkpoint.Safety.{digests}
use aegify.Agents.Checkpoint.Once.{Step, Reachable, sent-recorded}
use aegify.Agents.Checkpoint.Replay.{run_turns, AskAll, AnswerAll, run_turns-resume}
use aegify.Agents.Checkpoint.Recovery.{resume-restores, resume-unfinished_turn}

-- A provider whose responses are numbers, written as so many letters, and are turns and narratives.
abbrev letters : ℕ → String
letters ℕ.zero = ""
letters (ℕ.suc n) = "a" <> letters n

abbrev tally : Json → Option ℕ
tally (Json.text s) = some (length (codes s))
tally (Json.literal l) = none
tally (Json.array xs) = none
tally (Json.object ms) = none

abbrev checks : Checks Bool ℕ
checks = record {
  size = λ n. some 2;
  has_kind = λ schema. schema;
  as_turn =
      λ n. some (record { kind = "final"; requests = []; narrative = some n; citation_ids = [] });
  validate_narrative = λ n. ltb 0 n;
  expressions = record { is_sensitive_key = λ key. false; substitute = λ s. s };
  document = λ n. Json.text (letters n);
  of_document = tally;
}

abbrev other_digest : String
other_digest = "sha256:fedcba9876543210fedcba9876543210fedcba9876543210fedcba9876543210"

abbrev ask : Turn Bool
ask = record { digest = digest; schema = true }

abbrev ask_again : Turn Bool
ask_again = record { digest = other_digest; schema = false }

abbrev answering : Surroundings ℕ
answering = record { first_save = saved; second_save = saved; reply = ok 7; spent = start }

abbrev limited : Surroundings ℕ
limited = record {
  first_save = saved;
  second_save = saved;
  reply = raise (Failure.backend "rate_limited");
  spent = start;
}

abbrev interrupted : Surroundings ℕ
interrupted = record { first_save = saved; second_save = refused; reply = ok 7; spent = start }

abbrev fresh : CheckpointBackend ℕ
fresh = opened (new_state digest) none (some (new_state digest)) []

abbrev later : CheckpointBackend ℕ
later = (invoke_turn checks ask_again limited (invoke_turn checks ask answering fresh).1).1

creates : create digest none none saved ≡ ok fresh
unfolding create
creates = refl

abbrev records : List (Record ℕ)
records =
    record {
      request_digest = digest;
      state = RecordState.completed;
      response = some 7;
      error_code = "";
    }
    ∷ record {
      request_digest = other_digest;
      state = RecordState.error;
      response = none;
      error_code = "rate_limited";
    }
    ∷ []

abbrev on_disk : State ℕ
on_disk = record { identity_digest = digest; records = records; usage = none }

first_run : later.file ≡ some on_disk
unfolding invoke_turn new_turn close_turn set_last check_response is_error_code validate_turn redact
first_run = refl

abbrev second : CheckpointBackend ℕ
second = opened on_disk none (some on_disk) (digest ∷ other_digest ∷ [])

resumes : resume digest none (some on_disk) (digest ∷ other_digest ∷ []) ≡ ok second
unfolding resume valid_state valid_record consistent_state is_error_code is_digest
resumes = refl

some-7 : (x : ℕ) → some 7 ≡ some x → check_response checks true x ≡ ok 7
unfolding check_response validate_turn redact
some-7 x e =
    let same : 7 ≡ x = ground arith in subst (λ n. check_response checks true n ≡ ok 7) same refl

asks : AskAll checks records ((ask, answering) ∷ (ask_again, interrupted) ∷ [])
unfolding check_response validate_turn redact
asks =
    AskAll.ask (record { same = refl; accepts = λ x e. (7, some-7 x e) })
      (AskAll.ask (record { same = refl; accepts = λ x e. absurd (cc (e)) }) AskAll.nothing)

run_turns-resume_example :
    AnswerAll checks records
      ((ask, answering) ∷ (ask_again, interrupted) ∷ [])
      (run_turns checks ((ask, answering) ∷ (ask_again, interrupted) ∷ []) second).0
    × ((run_turns checks ((ask, answering) ∷ (ask_again, interrupted) ∷ []) second).1.sent
        ≡ digest ∷ other_digest ∷ [])
    × ((run_turns checks ((ask, answering) ∷ (ask_again, interrupted) ∷ []) second).1.new_calls ≡ 0)
    × ((run_turns checks ((ask, answering) ∷ (ask_again, interrupted) ∷ []) second).1.file
        ≡ some on_disk)
    × ((run_turns checks ((ask, answering) ∷ (ask_again, interrupted) ∷ []) second).1.budget ≡ none)
    × (finish (run_turns checks ((ask, answering) ∷ (ask_again, interrupted) ∷ []) second).1
        ≡ ok tt)
run_turns-resume_example =
    run_turns-resume checks digest none on_disk (digest ∷ other_digest ∷ []) second
      ((ask, answering) ∷ (ask_again, interrupted) ∷ []) resumes asks

history : Reachable checks fresh later
history =
    Reachable.next (Reachable.next Reachable.here (Step.turning ask answering))
      (Step.turning ask_again limited)

sent-recorded_example :
    (disk : State ℕ) × (later.file ≡ some disk)
    × (length disk.records ≤ 48)
    × ((unsent : List String) × (later.sent ++ unsent ≡ digests disk))
    × (any uncertain disk.records ≡ false → later.sent ≡ digests disk)
sent-recorded_example = sent-recorded checks digest none saved fresh later creates history

resume-unfinished_turn_example :
    resume digest none (invoke_turn checks ask interrupted fresh).1.file (digest ∷ []) ≢ ok second
resume-unfinished_turn_example =
    resume-unfinished_turn checks ask interrupted fresh digest none (digest ∷ []) second refl refl
      refl refl refl refl

abbrev paid : State ℕ
paid = record { identity_digest = digest; records = records; usage = some (snapshot closed) }

closed_valid : valid_usage (snapshot closed) ≡ true
unfolding get_token_usage
closed_valid = elim (Bool-cases (valid_usage (snapshot closed))) [
  | inl v ↦ v
  | inr n ↦ absurd (
      cc (
        subst
          (λ t. (if t then ok (snapshot closed) else raise validation_error) ≡ ok (snapshot closed))
          n closed_usage))
]

receipts_valid : all valid_receipt (snapshot closed).calls ≡ true
unfolding valid_receipt valid_labels valid_usage_state is_digest has_length settle reserve can_spend
    new_receipt dispatch settled_receipt publish
receipts_valid = refl

paid_valid : valid_state paid ≡ true
unfolding valid_state valid_record consistent_state is_error_code is_digest valid_document
paid_valid = ground (arith, closed_valid, receipts_valid)

resume-restores_example :
    resume digest
      (some (unused closed.total_budget closed.max_calls))
      (some paid)
      (digest ∷ other_digest ∷ [])
    ≡ ok (opened paid (some closed) (some paid) (digest ∷ other_digest ∷ []))
resume-restores_example =
    resume-restores digest paid (digest ∷ other_digest ∷ []) closed (snapshot closed)
      (used-IsConsistent 1000 2 closed (omega arith) trace) is_native no_pending closed_usage refl
      paid_valid refl refl
