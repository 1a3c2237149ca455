-- ===== src/Agents/Checkpoint/Recovery.antt =====
-- Resuming a `CheckpointBackend` (scanner/src/aegify/agents/checkpoint.py): its accounts, and a
-- turn whose end did not reach the file.
use aegify.Base.{
  suc, ◌≡◌, ◌≢◌, refl, true, false, not, ◌||◌, String, Option, none, some, List, [], ◌∷◌, ◌++◌,
  arith, leb, length, any, get_elem?, str_eq, eq_iff, Result, ok, raise,
}
use aegify.Models.Receipts.{TokenUsage}
use aegify.Llm.Budget.State.{TokenBudget, Error, unused}
use aegify.Llm.Budget.Usage.{get_token_usage}
use aegify.Llm.Budget.Invariant.{IsConsistent}
use aegify.Llm.Budget.Snapshots.{restore_usage-get_token_usage}
use aegify.Agents.Checkpoint.Records.{Record, State, Failure, Checks, uncertain, valid_state}
use aegify.Agents.Checkpoint.Turns.{
  CheckpointBackend, Save, saved, refused, torn, Turn, Surroundings, save, take_usage, read_usage,
  outcome, closed_record, pending_record, push_record, put_record, close_turn, send_turn, new_turn,
  invoke_turn, answer_of,
}
use aegify.Agents.Checkpoint.Sessions.{resume, opened}
use aegify.Agents.Checkpoint.Starts.{resume-IsResumed}

module _ {R : Type 0} where
  -- A session that saved the usage of consistent, settled, native accounts resumes with exactly those
  -- accounts, given an unused budget of the same limits, from a file that validates, its receipts
  -- included, is of the same identity and has no pending record.
  pub resume-restores :
      (digest : String) (s : State R) (sent : List String) (b : TokenBudget) (u : TokenUsage)
      → IsConsistent b
      → b.legacy_usage ≡ false
      → b.pending ≡ []
      → get_token_usage b ≡ ok u
      → s.usage ≡ some u
      → valid_state s ≡ true
      → s.identity_digest ≡ digest
      → any uncertain s.records ≡ false
      → resume digest (some (unused b.total_budget b.max_calls)) (some s) sent
        ≡ ok (opened s (some b) (some s) sent)
  unfolding resume
  resume-restores digest s sent b u c native settled g held v d sure =
      let same : str_eq s.identity_digest digest ≡ true = (eq_iff s.identity_digest digest).1 d in
      rw (v, same, sure, held, restore_usage-get_token_usage b u c native settled g) refl

  pending_found :
      (xs : List (Record R)) (digest : String)
      → any uncertain (xs ++ pending_record digest ∷ []) ≡ true
  pending_found [] digest = refl
  pending_found (x ∷ xs) digest = ground (arith, pending_found xs digest)

  taken-file :
      (digest : String) (e : Surroundings R) (answer : Result Failure R)
      (u : Result Error TokenUsage) (m : CheckpointBackend R)
      → e.second_save ≡ refused
      → (take_usage u m (λ m2.
          save e.second_save m2
            (λ m3. (outcome answer, record m3 { cursor = suc m3.cursor })))).1.file
        ≡ m.file
  taken-file digest e answer (ok u) m w = rw w refl
  taken-file digest e answer (raise x) m w = refl

  read-file :
      (digest : String) (e : Surroundings R) (answer : Result Failure R) (b : Option TokenBudget)
      (m : CheckpointBackend R)
      → e.second_save ≡ refused
      → (read_usage b m (λ m2.
          save e.second_save m2
            (λ m3. (outcome answer, record m3 { cursor = suc m3.cursor })))).1.file
        ≡ m.file
  read-file digest e answer none m w = rw w refl
  read-file digest e answer (some b) m w = taken-file digest e answer (get_token_usage b) m w

  close_turn-file :
      (digest : String) (e : Surroundings R) (answer : Result Failure R) (m : CheckpointBackend R)
      → e.second_save ≡ refused
      → (close_turn digest e answer m).1.file ≡ m.file
  unfolding close_turn
  close_turn-file digest e answer m w =
      read-file digest e answer m.budget (put_record (closed_record digest answer) m) w

module _ {Schema R : Type 0} (checks : Checks Schema R) where
  sent_file :
      (w : Save) (t : Turn Schema) (e : Surroundings R) (m : CheckpointBackend R)
      → w ≡ saved
      → e.second_save ≡ refused
      → (save w m (send_turn checks t e)).1.file ≡ some m.state
  sent_file saved t e m first second =
      close_turn-file t.digest e (answer_of checks t.schema e.reply) _ second
  sent_file refused t e m first second = absurd (cc)
  sent_file torn t e m first second = refl

  left_on_file :
      (t : Turn Schema) (e : Surroundings R) (m : CheckpointBackend R)
      → m.failed ≡ false
      → m.locked ≡ true
      → get_elem? m.state.records m.cursor ≡ none
      → leb 48 (length m.state.records) ≡ false
      → e.first_save ≡ saved
      → e.second_save ≡ refused
      → (invoke_turn checks t e m).1.file ≡ some (push_record (pending_record t.digest) m).state
  unfolding invoke_turn new_turn
  left_on_file t e m f k at_end room first second =
      let free : (m.failed || not m.locked) ≡ false = ground arith in
      rw (free, at_end, room)
        (sent_file e.first_save t e (push_record (pending_record t.digest) m) first second)

  -- A new turn whose request is on file, and whose end never gets there, is not retried: no session
  -- resumes from the file that it leaves.
  pub resume-unfinished_turn :
      (t : Turn Schema) (e : Surroundings R) (m : CheckpointBackend R) (digest : String)
      (budget : Option TokenBudget) (sent : List String) (next : CheckpointBackend R)
      → m.failed ≡ false
      → m.locked ≡ true
      → get_elem? m.state.records m.cursor ≡ none
      → leb 48 (length m.state.records) ≡ false
      → e.first_save ≡ saved
      → e.second_save ≡ refused
      → resume digest budget (invoke_turn checks t e m).1.file sent ≢ ok next
  resume-unfinished_turn t e m digest budget sent next f k at_end room first second h =
      let i =
        resume-IsResumed digest budget _ sent next
          (rw (left_on_file t e m f k at_end room first second) at h) in
      cc (i.certain, pending_found m.state.records t.digest)
