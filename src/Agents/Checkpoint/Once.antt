-- ===== src/Agents/Checkpoint/Once.antt =====
-- Sequences of turns, crashes and resumed sessions of `CheckpointBackend`
-- (scanner/src/aegify/agents/checkpoint.py).
use aegify.Base.{
  ◌≤◌, ◌≡◌, refl, ap, ◌∙◌, subst, false, String, Option, none, some, List, [], ◌++◌, arith, length,
  any, ok,
}
use aegify.Llm.Budget.State.{TokenBudget}
use aegify.Agents.Checkpoint.Records.{State, Checks, uncertain}
use aegify.Agents.Checkpoint.Turns.{
  CheckpointBackend, Save, saved, refused, torn, Turn, Surroundings, invoke_turn, close,
}
use aegify.Agents.Checkpoint.Sessions.{create, resume, opened, new_state}
use aegify.Agents.Checkpoint.Safety.{IsSafe, digests}
use aegify.Agents.Checkpoint.Starts.{resume-IsResumed}
use aegify.Agents.Checkpoint.History.{invoke_turn-IsSafe, close-IsSafe}

module _ {R : Type 0} where
  created-IsSafe :
      (digest : String) (budget : Option TokenBudget) (w : Save) (m : CheckpointBackend R)
      → create digest budget none w ≡ ok m
      → IsSafe m
  unfolding create
  created-IsSafe digest budget saved m h =
      let same : opened (new_state digest) budget (some (new_state digest)) [] ≡ m = ground arith in
      let fresh : IsSafe (opened (new_state digest) budget (some (new_state digest)) []) = record {
        disk = new_state digest;
        on_file = refl;
        bounded = omega arith;
        unsent = [];
        logged = refl;
        all_sent = λ sure. refl;
        in_step = λ go. (refl, refl);
      } in
      subst IsSafe same fresh
  created-IsSafe digest budget refused m h = absurd (cc)
  created-IsSafe digest budget torn m h = absurd (cc)

  resumed-IsSafe :
      (digest : String) (budget : Option TokenBudget) (file : Option (State R))
      (m next : CheckpointBackend R)
      → m.file ≡ file
      → IsSafe m
      → resume digest budget file m.sent ≡ ok next
      → IsSafe next
  unfolding resume
  resumed-IsSafe digest budget none m next f i h = absurd (cc)
  resumed-IsSafe digest budget (some s) m next f i h =
      let r = resume-IsResumed digest budget s m.sent next h in
      let same : i.disk ≡ s = ground (arith, i.on_file, f) in
      record {
        disk = s;
        on_file = r.on_file;
        bounded = subst (λ d. length d.records ≤ 48) same i.bounded;
        unsent = i.unsent;
        logged = ap (λ x. x ++ i.unsent) r.sent_before ∙ i.logged ∙ ap digests same;
        all_sent = λ sure. r.sent_before ∙ i.all_sent (rw same sure) ∙ ap digests same;
        in_step = λ go. (ap (λ (x : State R). x.records) r.held, r.certain);
      }

module _ {Schema R : Type 0} (checks : Checks Schema R) where
  -- What can follow: a turn, the end of a session, or a session that resumes from the file. The
  -- last may follow any state, also one that a crash cut short.
  pub data Step (m : CheckpointBackend R) : CheckpointBackend R → Type 0 where
    turning : (t : Turn Schema) (e : Surroundings R) → Step m (invoke_turn checks t e m).1
    closing : Step m (close m)
    resuming :
        (digest : String) (budget : Option TokenBudget) (next : CheckpointBackend R)
        → resume digest budget m.file m.sent ≡ ok next
        → Step m next

  pub data Reachable (m : CheckpointBackend R) : CheckpointBackend R → Type 0 where
    here : Reachable m m
    next : {n o : CheckpointBackend R} → Reachable m n → Step n o → Reachable m o

  Step-IsSafe : {m n : CheckpointBackend R} → Step m n → IsSafe m → IsSafe n
  Step-IsSafe {m} (turning t e) i = invoke_turn-IsSafe checks t e m i
  Step-IsSafe {m} closing i = close-IsSafe checks m i
  Step-IsSafe {m} (resuming digest budget n h) i = resumed-IsSafe digest budget m.file m n refl i h

  Reachable-IsSafe : {m n : CheckpointBackend R} → Reachable m n → IsSafe m → IsSafe n
  Reachable-IsSafe here i = i
  Reachable-IsSafe (next r s) i = Step-IsSafe s (Reachable-IsSafe r i)

  -- From a new checkpoint on, through any turns, crashes and resumed sessions: the requests that
  -- the provider was sent are, in order, the first ones recorded in the file, which holds at most
  -- 48; they are all of them where no record is pending. So every
  -- request that was sent has a record of its own in the file.
  pub sent-recorded :
      (digest : String) (budget : Option TokenBudget) (w : Save) (start m : CheckpointBackend R)
      → create digest budget none w ≡ ok start
      → Reachable start m
      → (disk : State R) × (m.file ≡ some disk)
        × (length disk.records ≤ 48)
        × ((unsent : List String) × (m.sent ++ unsent ≡ digests disk))
        × (any uncertain disk.records ≡ false → m.sent ≡ digests disk)
  sent-recorded digest budget w start m h r =
      let i = Reachable-IsSafe r (created-IsSafe digest budget w start h) in
      (i.disk, i.on_file, i.bounded, (i.unsent, i.logged), i.all_sent)
