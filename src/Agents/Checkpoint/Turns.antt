-- ===== src/Agents/Checkpoint/Turns.antt =====
-- `CheckpointBackend` of scanner/src/aegify/agents/checkpoint.py, from an open checkpoint on:
-- `invoke_turn`, `finish` and `close`. The file is modelled as its parsed content.
use aegify.Base.{
  ℕ, suc, Bool, true, false, not, ◌||◌, String, Option, none, some, List, [], ◌∷◌, ◌++◌, leb, ◌==◌,
  length, get_elem?, if◌then◌else◌, str_eq, Result, ok, raise,
}
use aegify.Models.Receipts.{TokenUsage}
use aegify.Llm.Budget.State.{TokenBudget, Error}
use aegify.Llm.Budget.Usage.{get_token_usage}
use aegify.Agents.Checkpoint.Records.{
  Record, pending, completed, error, State, is_error, is_error_code, Failure, backend, other,
  Checks, check_response,
}

-- The object, its file, and the digests of the requests that its provider was sent, oldest first.
-- The budget is that of an `AnthropicAPIBackend`.
pub record CheckpointBackend (R : Type 0) : Type 0 where
  pub state : State R
  pub cursor : ℕ
  pub replayed_calls : ℕ
  pub new_calls : ℕ
  pub failed : Bool
  pub locked : Bool
  pub budget : Option TokenBudget
  pub file : Option (State R)
  pub sent : List String

-- How a `_save` ends: the state is on disk, or an exception comes before or after `os.replace`. A
-- process that dies during a turn leaves the file of one of the latter two.
pub data Save : Type 0 where
  saved refused torn : Save

-- `json_digest` of the prompt, the payload and the schema; and the schema.
pub record Turn (Schema : Type 0) : Type 0 where
  pub digest : String
  pub schema : Schema

-- What the surroundings of a turn do: the two saves, what the provider returns or raises, and its
-- budget after the call.
pub record Surroundings (R : Type 0) : Type 0 where
  pub first_save : Save
  pub second_save : Save
  pub reply : Result Failure R
  pub spent : TokenBudget

-- The exceptions of a turn are `AgentBackendError`s, given by their code.
abbrev pub TurnResult : Type 0 → Type 0
TurnResult R = Result String R × CheckpointBackend R

-- `code if re.fullmatch(r"[a-z_]{1,80}", code) else "provider_error"`
abbrev pub code_of : Failure → String
code_of (backend code) = if is_error_code 1 code then code else "provider_error"
code_of other = "invalid_response"

module _ {R : Type 0} where
  -- The last `except` clause.
  abbrev pub stopped : CheckpointBackend R → TurnResult R
  stopped m = (raise "checkpoint_stopped", record m { failed = true })

  -- `_save`, and what comes after it where it succeeds.
  abbrev pub save : Save → CheckpointBackend R → (CheckpointBackend R → TurnResult R) → TurnResult R
  save saved m next = next (record m { file = some m.state })
  save refused m next = stopped m
  save torn m next = stopped (record m { file = some m.state })

  -- `_usage`, and what comes after it where it succeeds.
  abbrev pub take_usage :
      Result Error TokenUsage
      → CheckpointBackend R
      → (CheckpointBackend R → TurnResult R)
      → TurnResult R
  take_usage (raise e) m next = stopped m
  take_usage (ok u) m next =
      let s = m.state in next (record m { state = record s { usage = some u } })

  abbrev pub read_usage :
      Option TokenBudget → CheckpointBackend R → (CheckpointBackend R → TurnResult R) → TurnResult R
  read_usage none m next = next m
  read_usage (some b) m next = take_usage (get_token_usage b) m next

  -- An assignment to the record that was appended last.
  unfoldable pub set_last : List (Record R) → Record R → List (Record R)
  set_last [] r = []
  set_last (x ∷ []) r = r ∷ []
  set_last (x ∷ y ∷ ys) r = x ∷ set_last (y ∷ ys) r

  abbrev pub pending_record : String → Record R
  pending_record digest = record {
    request_digest = digest;
    state = pending;
    response = none;
    error_code = "";
  }

  abbrev pub closed_record : String → Result Failure R → Record R
  closed_record digest (ok response) = record {
    request_digest = digest;
    state = completed;
    response = some response;
    error_code = "";
  }
  closed_record digest (raise e) = record {
    request_digest = digest;
    state = error;
    response = none;
    error_code = code_of e;
  }

  abbrev pub outcome : Result Failure R → Result String R
  outcome (ok response) = ok response
  outcome (raise e) = raise (code_of e)

  abbrev pub push_record : Record R → CheckpointBackend R → CheckpointBackend R
  push_record r m =
      let s = m.state in record m { state = record s { records = s.records ++ r ∷ [] } }

  abbrev pub put_record : Record R → CheckpointBackend R → CheckpointBackend R
  put_record r m =
      let s = m.state in record m { state = record s { records = set_last s.records r } }

  -- From the provider's answer on.
  unfoldable pub close_turn :
      String → Surroundings R → Result Failure R → CheckpointBackend R → TurnResult R
  close_turn digest e answer m =
      let m1 = put_record (closed_record digest answer) m in
      read_usage m1.budget m1
        λ m2. save e.second_save m2 λ m3. (outcome answer, record m3 { cursor = suc m3.cursor })

abbrev spend : TokenBudget → Option TokenBudget → Option TokenBudget
spend b none = none
spend b (some c) = some b

module _ {Schema R : Type 0} (checks : Checks Schema R) where
  abbrev pub answer_of : Schema → Result Failure R → Result Failure R
  answer_of schema (raise e) = raise e
  answer_of schema (ok response) = check_response checks schema response

  -- The part of `invoke_turn` that sends the request.
  abbrev pub send_turn : Turn Schema → Surroundings R → CheckpointBackend R → TurnResult R
  send_turn t e m = close_turn t.digest e (answer_of t.schema e.reply) (record m {
    new_calls = suc m.new_calls;
    sent = m.sent ++ t.digest ∷ [];
    budget = spend e.spent m.budget;
  })

  -- The part of `invoke_turn` for a turn that has no record.
  unfoldable pub new_turn : Turn Schema → Surroundings R → CheckpointBackend R → TurnResult R
  new_turn t e m =
      if leb 48 (length m.state.records)
      then stopped m
      else save e.first_save (push_record (pending_record t.digest) m) (send_turn t e)

  abbrev pub replayed : Result Failure R → CheckpointBackend R → TurnResult R
  replayed (ok response) m = (ok response, m)
  replayed (raise e) m = stopped m

  abbrev pub replay_response : Schema → Option R → CheckpointBackend R → TurnResult R
  replay_response schema none m = stopped m
  replay_response schema (some response) m = replayed (check_response checks schema response) m

  -- The part of `invoke_turn` for a turn that has a record.
  unfoldable pub replay_turn : Turn Schema → Record R → CheckpointBackend R → TurnResult R
  replay_turn t r m =
      if not (str_eq r.request_digest t.digest)
      then stopped m
      else let m1 = record m { cursor = suc m.cursor; replayed_calls = suc m.replayed_calls } in
        if is_error r.state
        then (raise r.error_code, m1)
        else replay_response t.schema r.response m1

  abbrev pub turn_at :
      Turn Schema → Surroundings R → Option (Record R) → CheckpointBackend R → TurnResult R
  turn_at t e (some r) m = replay_turn t r m
  turn_at t e none m = new_turn t e m

  unfoldable pub invoke_turn : Turn Schema → Surroundings R → CheckpointBackend R → TurnResult R
  invoke_turn t e m =
      if m.failed || not m.locked
      then (raise "checkpoint_stopped", m)
      else turn_at t e (get_elem? m.state.records m.cursor) m

module _ {R : Type 0} where
  unfoldable pub finish : CheckpointBackend R → Result Failure (Unit {0})
  finish m = if m.failed || not (m.cursor == length m.state.records) then raise other else ok tt

  unfoldable pub close : CheckpointBackend R → CheckpointBackend R
  close m = record m { locked = false }
