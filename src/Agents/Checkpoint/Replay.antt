-- ===== src/Agents/Checkpoint/Replay.antt =====
-- The turns of a resumed session of `CheckpointBackend`
-- (scanner/src/aegify/agents/checkpoint.py).
use aegify.Base.{
  ℕ, suc, ◌+◌, ◌≡◌, refl, ap, ◌∙◌, true, false, not, ◌||◌, String, Option, some, List, [], ◌∷◌,
  ◌++◌, arith, length, length-append, get_elem?, eq_iff, All, all, any, none, Result, ok, raise,
}
use aegify.Agents.Checkpoint.Records.{
  Record, RecordState, State, Checks, check_response, valid_record, valid_state, consistent_state,
  uncertain,
}
use aegify.Llm.Budget.State.{TokenBudget}
use aegify.Agents.Checkpoint.Sessions.{resume}
use aegify.Agents.Checkpoint.Starts.{resume-IsResumed}
use aegify.Agents.Checkpoint.Turns.{
  CheckpointBackend, Turn, Surroundings, replay_turn, invoke_turn, finish,
}

finish_complete :
    {R : Type 0} (m : CheckpointBackend R)
    → m.failed ≡ false
    → m.cursor ≡ length m.state.records
    → finish m ≡ ok tt
unfolding finish
finish_complete m f c = ground arith

-- The turns of a run, one after the other, each with what surrounds it.
module _ {Schema R : Type 0} (checks : Checks Schema R) where
  pub run_turns :
      List (Turn Schema × Surroundings R)
      → CheckpointBackend R
      → List (Result String R) × CheckpointBackend R
  run_turns [] m = ([], m)
  run_turns ((t, e) ∷ ts) m =
      let (first, m1) = invoke_turn checks t e m in
      let (rest, m2) = run_turns ts m1 in (first ∷ rest, m2)

  -- A turn asks for what a record holds: its request is that of the record, and a response that the
  -- record keeps passes the checks for the schema of the turn.
  pub record Asks (r : Record R) (t : Turn Schema) : Type 0 where
    pub same : r.request_digest ≡ t.digest
    pub accepts :
        (x : R) → r.response ≡ some x → (y : R) × (check_response checks t.schema x ≡ ok y)

  pub data AskAll : List (Record R) → List (Turn Schema × Surroundings R) → Type 0 where
    nothing : AskAll [] []
    ask :
        {r : Record R} {rs : List (Record R)} {t : Turn Schema} {e : Surroundings R}
        {ts : List (Turn Schema × Surroundings R)}
        → Asks r t
        → AskAll rs ts
        → AskAll (r ∷ rs) ((t, e) ∷ ts)

  -- What a turn with a record comes to: the error of the record, or its response as the checks return
  -- it.
  pub data Answers (r : Record R) (t : Turn Schema) : Result String R → Type 0 where
    stop : r.state ≡ RecordState.error → Answers r t (raise r.error_code)
    response :
        (x y : R)
        → r.state ≡ RecordState.completed
        → r.response ≡ some x
        → check_response checks t.schema x ≡ ok y
        → Answers r t (ok y)

  pub data AnswerAll
      : List (Record R)
        → List (Turn Schema × Surroundings R)
        → List (Result String R)
        → Type 0 where
    nothing : AnswerAll [] [] []
    answer :
        {r : Record R} {rs : List (Record R)} {t : Turn Schema} {e : Surroundings R}
        {ts : List (Turn Schema × Surroundings R)} {a : Result String R}
        {answers : List (Result String R)}
        → Answers r t a
        → AnswerAll rs ts answers
        → AnswerAll (r ∷ rs) ((t, e) ∷ ts) (a ∷ answers)

  abbrev pub moved : CheckpointBackend R → ℕ → CheckpointBackend R
  moved m n = record m { cursor = m.cursor + n; replayed_calls = m.replayed_calls + n }

  -- A record that is valid and whose end is known.
  abbrev IsClosed : Record R → Type 0
  IsClosed r = (consistent_state r ≡ true) × (uncertain r ≡ false)

  abbrev stepped : CheckpointBackend R → CheckpointBackend R
  stepped m = record m { cursor = suc m.cursor; replayed_calls = suc m.replayed_calls }

  -- A turn that is replayed answers, and moves on.
  abbrev Replayed :
      Record R → Turn Schema → CheckpointBackend R → Result String R × CheckpointBackend R → Type 0
  Replayed r t m out = (a : Result String R) × Answers r t a × (out ≡ (a, stepped m))

  some_response :
      (r : Record R) (o : Option R)
      → r.response ≡ o
      → r.state ≡ RecordState.completed
      → consistent_state r ≡ true
      → (x : R) × (r.response ≡ some x)
  unfolding consistent_state
  some_response r (some x) h s c = (x, h)
  some_response r none h s c = absurd (ground (arith, rw (h, s) at c))

  replay_turn-Replayed :
      (st : RecordState) (r : Record R) (t : Turn Schema) (m : CheckpointBackend R)
      → r.state ≡ st
      → IsClosed r
      → Asks r t
      → Replayed r t m (replay_turn checks t r m)
  unfolding replay_turn
  replay_turn-Replayed RecordState.pending r t m s (c, sure) q = absurd (cc (rw s at sure))
  replay_turn-Replayed RecordState.error r t m s (c, sure) q =
      (raise r.error_code, Answers.stop s, rw (q.same, (eq_iff t.digest t.digest).1 refl, s) refl)
  replay_turn-Replayed RecordState.completed r t m s (c, sure) q =
      let (x, p) = some_response r r.response refl s c in
      let (y, k) = q.accepts x p in
      (
        ok y,
        Answers.response x y s p k,
        rw (q.same, (eq_iff t.digest t.digest).1 refl, s, p, k) refl,
      )

  get_elem?-length :
      (before rs : List (Record R)) (r : Record R)
      → get_elem? (before ++ r ∷ rs) (length before) ≡ some r
  get_elem?-length [] rs r = refl
  get_elem?-length (x ∷ xs) rs r = get_elem?-length xs rs r

  invoke_turn-Replayed :
      (before : List (Record R)) (r : Record R) (rs : List (Record R)) (t : Turn Schema)
      (e : Surroundings R) (m : CheckpointBackend R)
      → IsClosed r
      → Asks r t
      → m.state.records ≡ before ++ r ∷ rs
      → m.cursor ≡ length before
      → m.failed ≡ false
      → m.locked ≡ true
      → Replayed r t m (invoke_turn checks t e m)
  unfolding invoke_turn
  invoke_turn-Replayed before r rs t e m closed q l c f k =
      let found : get_elem? m.state.records m.cursor ≡ some r =
        rw (l, c) (get_elem?-length before rs r) in
      let free : (m.failed || not m.locked) ≡ false = ground arith in
      rw (free, found) (replay_turn-Replayed r.state r t m refl closed q)

  regroup :
      (before : List (Record R)) (r : Record R) (rs : List (Record R))
      → before ++ r ∷ rs ≡ (before ++ r ∷ []) ++ rs
  regroup [] r rs = refl
  regroup (x ∷ xs) r rs = ap (λ rest. x ∷ rest) (regroup xs r rs)

  replays :
      (before rs : List (Record R)) (ts : List (Turn Schema × Surroundings R))
      (m : CheckpointBackend R)
      → AskAll rs ts
      → All IsClosed rs
      → m.state.records ≡ before ++ rs
      → m.cursor ≡ length before
      → m.failed ≡ false
      → m.locked ≡ true
      → (answers : List (Result String R)) × AnswerAll rs ts answers
        × (run_turns ts m ≡ (answers, moved m (length rs)))
  unfolding run_turns
  replays before [] [] m AskAll.nothing closed l c f k = ([], AnswerAll.nothing, ground arith)
  replays before [] (t ∷ ts) m asks closed l c f k = elim asks [ ]
  replays before (r ∷ rs) [] m asks closed l c f k = elim asks [ ]
  replays before (r ∷ rs) ((t, e) ∷ ts) m (AskAll.ask q rest) closed l c f k =
      let (a, said, first) = invoke_turn-Replayed before r rs t e m closed.0 q l c f k in
      let (answers, all, later) =
        replays (before ++ r ∷ []) rs ts (stepped m) rest closed.1 (l ∙ regroup before r rs)
          (omega (arith, c, length-append before (r ∷ []))) f k in
      (a ∷ answers, AnswerAll.answer said all, rw (first, later) (ground arith))

  valid_record-IsClosed : (r : Record R) → valid_record r ≡ true → uncertain r ≡ false → IsClosed r
  unfolding valid_record
  valid_record-IsClosed r v sure = (ground arith, sure)

  all-IsClosed :
      (rs : List (Record R))
      → all valid_record rs ≡ true
      → any uncertain rs ≡ false
      → All IsClosed rs
  all-IsClosed [] v sure = tt
  all-IsClosed (r ∷ rs) v sure = (
    valid_record-IsClosed r (ground arith) (ground arith),
    all-IsClosed rs (ground arith) (ground arith),
  )

  valid-records : (s : State R) → valid_state s ≡ true → all valid_record s.records ≡ true
  unfolding valid_state
  valid-records s v = ground arith

  -- A session that resumes repeats its file. Where its turns ask in order for what the records hold,
  -- and the checks accept each recorded response again, each turn raises the error of its record or
  -- returns its response as those checks return it (redacted once more), whatever the surroundings
  -- do; and nothing is sent, no call counts as new, the file and the budget stay as they were, and
  -- `finish` accepts the run.
  pub run_turns-resume :
      (digest : String) (budget : Option TokenBudget) (s : State R) (sent : List String)
      (m : CheckpointBackend R) (ts : List (Turn Schema × Surroundings R))
      → resume digest budget (some s) sent ≡ ok m
      → AskAll s.records ts
      → AnswerAll s.records ts (run_turns ts m).0
        × ((run_turns ts m).1.sent ≡ sent)
        × ((run_turns ts m).1.new_calls ≡ m.new_calls)
        × ((run_turns ts m).1.file ≡ some s)
        × ((run_turns ts m).1.budget ≡ m.budget)
        × (finish (run_turns ts m).1 ≡ ok tt)
  run_turns-resume digest budget s sent m ts h asks =
      let i = resume-IsResumed digest budget s sent m h in
      let same : m.state.records ≡ s.records = ap (λ (x : State R). x.records) i.held in
      let closed = all-IsClosed s.records (valid-records s i.valid) i.certain in
      let (answers, said, run) =
        replays [] s.records ts m asks closed same i.first i.going i.holds_lock in
      let all : m.cursor + length s.records ≡ length m.state.records =
        rw (same, i.first) (omega arith) in
      rw run (said, i.sent_before, refl, i.on_file, refl, finish_complete _ i.going all)
