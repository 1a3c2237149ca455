-- ===== src/Agents/Checkpoint/Safety.antt =====
-- The file and the log of requests of `CheckpointBackend`
-- (scanner/src/aegify/agents/checkpoint.py) as a turn ends.
use aegify.Base.{
  suc, ◌≤◌, ◌≡◌, refl, sym, ap, ◌∙◌, false, ◌||◌, String, Option, none, some, List, [], ◌∷◌, ◌++◌,
  map, arith, length, length-append, any, Result, ok, raise,
}
use aegify.Llm.Budget.State.{TokenBudget, Error}
use aegify.Models.Receipts.{TokenUsage}
use aegify.Llm.Budget.Usage.{get_token_usage}
use aegify.Agents.Checkpoint.Records.{Record, State, Failure, uncertain, digest_of}
use aegify.Agents.Checkpoint.Turns.{
  CheckpointBackend, Save, saved, refused, torn, Surroundings, stopped, save, take_usage,
  read_usage, set_last, pending_record, closed_record, outcome, put_record, close_turn,
}

append_nil : (xs : List String) → xs ++ [] ≡ xs
append_nil [] = refl
append_nil (x ∷ xs) = ap (λ rest. x ∷ rest) (append_nil xs)

module _ {R : Type 0} where
  abbrev pub digests : State R → List String
  digests s = map digest_of s.records

  -- The requests that were sent are the first ones on file, and all of them where no record on file
  -- is pending. A session that goes on has on file what it has in memory, with no record pending.
  pub record IsSafe (m : CheckpointBackend R) : Type 0 where
    pub disk : State R
    pub on_file : m.file ≡ some disk
    pub bounded : length disk.records ≤ 48
    pub unsent : List String
    pub logged : m.sent ++ unsent ≡ digests disk
    pub all_sent : any uncertain disk.records ≡ false → m.sent ≡ digests disk
    pub in_step :
        m.failed ≡ false → (m.state.records ≡ disk.records) × (any uncertain disk.records ≡ false)

  pub set_last-snoc :
      (xs : List (Record R)) (p r : Record R) → set_last (xs ++ p ∷ []) r ≡ xs ++ r ∷ []
  unfolding set_last
  set_last-snoc [] p r = refl
  set_last-snoc (x ∷ []) p r = refl
  set_last-snoc (x ∷ y ∷ ys) p r = ap (λ rest. x ∷ rest) (set_last-snoc (y ∷ ys) p r)

  pub map-snoc :
      (xs : List (Record R)) (r : Record R)
      → map digest_of (xs ++ r ∷ []) ≡ map digest_of xs ++ r.request_digest ∷ []
  map-snoc [] r = refl
  map-snoc (x ∷ xs) r = ap (λ rest. x.request_digest ∷ rest) (map-snoc xs r)

  pub any-snoc :
      (xs : List (Record R)) (r : Record R)
      → any uncertain (xs ++ r ∷ []) ≡ (any uncertain xs || uncertain r)
  any-snoc [] r = ground arith
  any-snoc (x ∷ xs) r = ground (arith, any-snoc xs r)

  closed_digest :
      (digest : String) (answer : Result Failure R)
      → (closed_record digest answer).request_digest ≡ digest
  closed_digest digest (ok r) = refl
  closed_digest digest (raise e) = refl

  closed_certain :
      (digest : String) (answer : Result Failure R)
      → uncertain (closed_record digest answer) ≡ false
  closed_certain digest (ok r) = refl
  closed_certain digest (raise e) = refl

  pub stopped-IsSafe : (m : CheckpointBackend R) → IsSafe m → IsSafe (stopped m).1
  stopped-IsSafe m i = record {
    disk = i.disk;
    on_file = i.on_file;
    bounded = i.bounded;
    unsent = i.unsent;
    logged = i.logged;
    all_sent = i.all_sent;
    in_step = λ h. absurd (cc);
  }

  module _ (xs : List (Record R)) (digest : String) (room : suc (length xs) ≤ 48)
      (sure : any uncertain xs ≡ false) where
    -- A request is out: its record is pending on file, whatever the memory holds.
    pub record IsOut (m : CheckpointBackend R) : Type 0 where
      pub disk : State R
      pub on_file : m.file ≡ some disk
      pub listed : disk.records ≡ xs ++ pending_record digest ∷ []
      pub sent_last : m.sent ≡ map digest_of xs ++ digest ∷ []

    fits : (r : Record R) → length (xs ++ r ∷ []) ≤ 48
    fits r = omega (arith, length-append xs (r ∷ []), room)

    IsOut-stopped : (m : CheckpointBackend R) → IsOut m → IsSafe (stopped m).1
    IsOut-stopped m o = record {
      disk = o.disk;
      on_file = o.on_file;
      bounded = rw o.listed (fits (pending_record digest));
      unsent = [];
      logged =
          append_nil m.sent
          ∙ o.sent_last
          ∙ sym (map-snoc xs (pending_record digest))
          ∙ ap (map digest_of) (sym o.listed);
      all_sent = λ h.
          o.sent_last
          ∙ sym (map-snoc xs (pending_record digest))
          ∙ ap (map digest_of) (sym o.listed);
      in_step = λ h. absurd (cc);
    }

    -- A record that is no longer pending has reached the file.
    Written-IsSafe :
        (r : Record R) (m : CheckpointBackend R)
        → r.request_digest ≡ digest
        → uncertain r ≡ false
        → m.file ≡ some m.state
        → m.state.records ≡ xs ++ r ∷ []
        → m.sent ≡ map digest_of xs ++ digest ∷ []
        → IsSafe m
    Written-IsSafe r m d u f l s = record {
      disk = m.state;
      on_file = f;
      bounded = rw l (fits r);
      unsent = [];
      logged = append_nil m.sent ∙ all;
      all_sent = λ h. all;
      in_step = λ h. (refl, rw l (ground (arith, any-snoc xs r, sure, u)));
    }
      where
        all : m.sent ≡ digests m.state
        all =
            s
            ∙ ap (λ e. map digest_of xs ++ e ∷ []) (sym d)
            ∙ sym (map-snoc xs r)
            ∙ ap (map digest_of) (sym l)

    module _ (answer : Result Failure R) where
      saved-IsSafe :
          (w : Save) (m : CheckpointBackend R)
          → IsOut m
          → m.state.records ≡ xs ++ closed_record digest answer ∷ []
          → IsSafe (save w m (λ m3. (outcome answer, record m3 { cursor = suc m3.cursor }))).1
      saved-IsSafe saved m o l =
          Written-IsSafe (closed_record digest answer) _ (closed_digest digest answer)
            (closed_certain digest answer) refl l o.sent_last
      saved-IsSafe refused m o l = IsOut-stopped m o
      saved-IsSafe torn m o l =
          stopped-IsSafe (record m { file = some m.state })
            (Written-IsSafe (closed_record digest answer) _ (closed_digest digest answer)
              (closed_certain digest answer) refl l o.sent_last)

      taken-IsSafe :
          (u : Result Error TokenUsage) (w : Save) (m : CheckpointBackend R)
          → IsOut m
          → m.state.records ≡ xs ++ closed_record digest answer ∷ []
          → IsSafe
              (take_usage u m
                (λ m2. save w m2 (λ m3. (outcome answer, record m3 { cursor = suc m3.cursor })))).1
      taken-IsSafe (ok u) w m o l =
          saved-IsSafe w _
            (record {
              disk = o.disk;
              on_file = o.on_file;
              listed = o.listed;
              sent_last = o.sent_last;
            })
            l
      taken-IsSafe (raise e) w m o l = IsOut-stopped m o

      read-IsSafe :
          (b : Option TokenBudget) (w : Save) (m : CheckpointBackend R)
          → IsOut m
          → m.state.records ≡ xs ++ closed_record digest answer ∷ []
          → IsSafe
              (read_usage b m
                (λ m2. save w m2 (λ m3. (outcome answer, record m3 { cursor = suc m3.cursor })))).1
      read-IsSafe none w m o l = saved-IsSafe w m o l
      read-IsSafe (some b) w m o l = taken-IsSafe (get_token_usage b) w m o l

      pub close_turn-IsSafe :
          (e : Surroundings R) (m : CheckpointBackend R)
          → IsOut m
          → m.state.records ≡ xs ++ pending_record digest ∷ []
          → IsSafe (close_turn digest e answer m).1
      unfolding close_turn
      close_turn-IsSafe e m o l =
          read-IsSafe m.budget e.second_save (put_record (closed_record digest answer) m)
            (record {
              disk = o.disk;
              on_file = o.on_file;
              listed = o.listed;
              sent_last = o.sent_last;
            })
            (ap (λ rs. set_last rs (closed_record digest answer)) l
              ∙ set_last-snoc xs (pending_record digest) (closed_record digest answer))
