-- ===== src/Agents/Checkpoint/History.antt =====
-- The file and the log of requests of `CheckpointBackend`
-- (scanner/src/aegify/agents/checkpoint.py) over a whole turn.
use aegify.Base.{
  ℕ, suc, ◌≤◌, ◌≡◌, refl, sym, ap, ◌∙◌, false, not, ◌||◌, Option, none, some, List, [], ◌∷◌, ◌++◌,
  map, arith, leb, length, length-append, any, get_elem?, str_eq, Result, ok, raise, Bool-cases,
  inl, inr,
}
use aegify.Agents.Checkpoint.Records.{
  Record, Failure, Checks, uncertain, digest_of, check_response, is_error,
}
use aegify.Agents.Checkpoint.Turns.{
  CheckpointBackend, Save, saved, refused, torn, Turn, Surroundings, save, pending_record,
  push_record, send_turn, new_turn, replayed, replay_response, replay_turn, turn_at, invoke_turn,
  answer_of, close,
}
use aegify.Agents.Checkpoint.Safety.{IsSafe, stopped-IsSafe, close_turn-IsSafe, map-snoc}

module _ {Schema R : Type 0} (checks : Checks Schema R) where
  module _ (t : Turn Schema) (e : Surroundings R) where
    first-IsSafe :
        (w : Save) (m : CheckpointBackend R)
        → IsSafe m
        → m.failed ≡ false
        → suc (length m.state.records) ≤ 48
        → IsSafe (save w (push_record (pending_record t.digest) m) (send_turn checks t e)).1
    first-IsSafe saved m i go room =
        let (same, sure) = i.in_step go in
        close_turn-IsSafe m.state.records t.digest room (rw same sure)
          (answer_of checks t.schema e.reply) e _
          (record {
            disk = (push_record (pending_record t.digest) m).state;
            on_file = refl;
            listed = refl;
            sent_last =
                ap (λ s. s ++ t.digest ∷ []) (i.all_sent sure ∙ ap (map digest_of) (sym same));
          })
          refl
    first-IsSafe refused m i go room = record {
      disk = i.disk;
      on_file = i.on_file;
      bounded = i.bounded;
      unsent = i.unsent;
      logged = i.logged;
      all_sent = i.all_sent;
      in_step = λ h. absurd (cc);
    }
    first-IsSafe torn m i go room =
        let (same, sure) = i.in_step go in
        let p = pending_record t.digest in
        let all = map-snoc m.state.records p in
        record {
          disk = (push_record p m).state;
          on_file = refl;
          bounded = omega (arith, length-append m.state.records (p ∷ []), room);
          unsent = t.digest ∷ [];
          logged =
              ap (λ s. s ++ t.digest ∷ []) (i.all_sent sure ∙ ap (map digest_of) (sym same))
              ∙ sym all;
          all_sent = λ h. absurd (pending_stays m.state.records h);
          in_step = λ h. absurd (cc);
        }
      where
        pending_stays :
            (xs : List (Record R)) → ¬ (any uncertain (xs ++ pending_record t.digest ∷ []) ≡ false)
        pending_stays [] h = ground arith
        pending_stays (x ∷ xs) h = pending_stays xs (ground arith)

    new_turn-IsSafe :
        (m : CheckpointBackend R) → IsSafe m → m.failed ≡ false → IsSafe (new_turn checks t e m).1
    unfolding new_turn
    new_turn-IsSafe m i go = elim (Bool-cases (leb 48 (length m.state.records))) [
      | inl full ↦ rw full (stopped-IsSafe m i)
      | inr free ↦ rw free (first-IsSafe e.first_save m i go (ground arith))
    ]

    -- A replay leaves the file and the provider alone.
    moved-IsSafe :
        (m : CheckpointBackend R) (cursor replayed_calls : ℕ)
        → IsSafe m
        → IsSafe (record m { cursor = cursor; replayed_calls = replayed_calls })
    moved-IsSafe m c n i = record {
      disk = i.disk;
      on_file = i.on_file;
      bounded = i.bounded;
      unsent = i.unsent;
      logged = i.logged;
      all_sent = i.all_sent;
      in_step = i.in_step;
    }

    replayed-IsSafe :
        (a : Result Failure R) (m : CheckpointBackend R) → IsSafe m → IsSafe (replayed checks a m).1
    replayed-IsSafe (ok r) m i = i
    replayed-IsSafe (raise f) m i = stopped-IsSafe m i

    response-IsSafe :
        (response : Option R) (m : CheckpointBackend R)
        → IsSafe m
        → IsSafe (replay_response checks t.schema response m).1
    response-IsSafe none m i = stopped-IsSafe m i
    response-IsSafe (some r) m i = replayed-IsSafe (check_response checks t.schema r) m i

    replay_turn-IsSafe :
        (r : Record R) (m : CheckpointBackend R) → IsSafe m → IsSafe (replay_turn checks t r m).1
    unfolding replay_turn
    replay_turn-IsSafe r m i =
        let next = moved-IsSafe m (suc m.cursor) (suc m.replayed_calls) i in
        elim (Bool-cases (str_eq r.request_digest t.digest)) [
          | inr other ↦ rw other (stopped-IsSafe m i)
          | inl same ↦ elim (Bool-cases (is_error r.state)) [
            | inl bad ↦ rw (same, bad) next
            | inr good ↦ rw (same, good) (response-IsSafe r.response _ next)
          ]
        ]

    turn_at-IsSafe :
        (r : Option (Record R)) (m : CheckpointBackend R)
        → IsSafe m
        → m.failed ≡ false
        → IsSafe (turn_at checks t e r m).1
    turn_at-IsSafe (some r) m i go = replay_turn-IsSafe r m i
    turn_at-IsSafe none m i go = new_turn-IsSafe m i go

    pub invoke_turn-IsSafe :
        (m : CheckpointBackend R) → IsSafe m → IsSafe (invoke_turn checks t e m).1
    unfolding invoke_turn
    invoke_turn-IsSafe m i = elim (Bool-cases (m.failed || not m.locked)) [
      | inl out ↦ rw out i
      | inr on ↦ rw on (turn_at-IsSafe (get_elem? m.state.records m.cursor) m i (ground arith))
    ]

  pub close-IsSafe : (m : CheckpointBackend R) → IsSafe m → IsSafe (close m)
  unfolding close
  close-IsSafe m i = record {
    disk = i.disk;
    on_file = i.on_file;
    bounded = i.bounded;
    unsent = i.unsent;
    logged = i.logged;
    all_sent = i.all_sent;
    in_step = i.in_step;
  }
