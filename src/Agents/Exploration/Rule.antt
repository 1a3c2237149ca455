-- ===== src/Agents/Exploration/Rule.antt =====
-- A rule for the rounds of a review (scanner/src/aegify/agents/exploration.py): what each part of a round
-- keeps, the loop keeps.
use aegify.Base.{
  ℕ, suc, zero, ◌+◌, ◌≤◌, ◌≡◌, refl, Bool, true, false, String, Option, none, some, ltb, ◌==◌,
  length, if◌then◌else◌, not, str_eq, Bool-cases, inl, inr, arith,
}
use aegify.Agents.Exploration.Turns.{Turn, validate_turn}
use aegify.Agents.Exploration.Records.{Session, Limits, Toolbox}
use aegify.Agents.Exploration.Tools.{stop, call_tools}
use aegify.Agents.Exploration.Rounds.{
  Backend, Reply, is_some, conclude, received, count_round, act, after_reply, with_prompt,
  run_round, run_rounds,
}
use aegify.Agents.Exploration.Review.{
  Setup, inventory, begin, gap_when, prepared, ready, close, has_no_tool, review,
}

module _ (toolbox : Toolbox) (limits : Limits) {N : Type 0} (backend : Backend N) where
  open backend use {validate_narrative}

  abbrev pub fits : N → Bool
  fits n = is_some (validate_narrative n)

  abbrev Valid : String × Option (Turn N) → Type 0
  Valid (code, none) = Unit
  Valid (code, some t) = validate_turn fits (some t) ≡ true

  chosen :
      (big accepted : Bool) (t : Option (Turn N))
      → validate_turn fits t ≡ accepted
      → Valid (
          if big
          then ("response_limit", none)
          else (if accepted then ("", t) else ("invalid_response", none)))
  unfolding validate_turn
  chosen true accepted t e = tt
  chosen false false t e = tt
  chosen false true (some t) e = e
  chosen false true none e = absurd (cc)

  received-Valid : (reply : Reply N) → Valid (received toolbox limits backend reply)
  received-Valid (Reply.failed code) = tt
  received-Valid Reply.crashed = tt
  received-Valid (Reply.replied none t) = tt
  received-Valid (Reply.replied (some n) t) =
      chosen (ltb limits.max_response_bytes n) (validate_turn fits t) t refl

  -- What holds before a round, by the number of rounds so far, and what holds after the last one.
  module _ (setup : Setup) (Before : ℕ → Session N → Type 0) (After : Session N → Type 0)
      (stopped : (k : ℕ) (code : String) (s : Session N) → Before k s → After (stop code s))
      (left_over : (k : ℕ) (s : Session N) → Before k s → After s)
      (counted : (k round size : ℕ) (outcome code : String) (s : Session N)
        → suc k ≤ limits.max_rounds
        → size ≤ limits.max_prompt_bytes
        → Before k s
        → Before (suc k) (count_round toolbox limits backend round size outcome code s))
      (concluded : (k : ℕ) (t : Turn N) (s : Session N)
        → validate_turn fits (some t) ≡ true
        → str_eq t.kind "final" ≡ true
        → Before k s
        → After (conclude toolbox limits backend setup.needs_coverage (inventory setup) t s))
      (called : (k round : ℕ) (t : Turn N) (s : Session N)
        → ltb limits.max_tool_calls (length s.results + length t.requests) ≡ false
        → Before k s
        → let next = call_tools toolbox limits round 0 t.requests s in
          (str_eq next.trace.stop_reason "" ≡ true → Before k next)
          × (str_eq next.trace.stop_reason "" ≡ false → After next)) where
    -- The loop goes on, or it ends.
    abbrev Outcome : ℕ → Session N × Bool → Type 0
    Outcome k (s, goes_on) = (goes_on ≡ true → Before k s) × (goes_on ≡ false → After s)

    ended : (k : ℕ) (s : Session N) → After s → Outcome k (s, false)
    ended k s a = (λ e. absurd (cc (e)), λ e. a)

    act-Outcome :
        (k round : ℕ) (t : Turn N) (s : Session N)
        → validate_turn fits (some t) ≡ true
        → Before k s
        → Outcome k (act toolbox limits backend setup.needs_coverage (inventory setup) round t s)
    unfolding act
    act-Outcome k round t s v b = elim (Bool-cases (str_eq t.kind "final")) [
      | inl e ↦ rw e (ended k _ (concluded k t s v e b))
      | inr e ↦ elim (Bool-cases (round == limits.max_rounds)) [
        | inl f ↦ rw (e, f) (ended k _ (stopped k "round_limit" s b))
        | inr f ↦
            elim (Bool-cases (ltb limits.max_tool_calls (length s.results + length t.requests))) [
              | inl g ↦ rw (e, f, g) (ended k _ (stopped k "tool_limit" s b))
              | inr g ↦ rw (e, f, g) (called k round t s g b)
            ]
      ]
    ]

    after_reply-Outcome :
        (k round size : ℕ) (reply : String × Option (Turn N)) (s : Session N)
        → suc k ≤ limits.max_rounds
        → size ≤ limits.max_prompt_bytes
        → Valid reply
        → Before k s
        → Outcome (suc k) (
            after_reply toolbox limits backend setup.needs_coverage
              (inventory setup)
              round
              size
              reply
              s)
    after_reply-Outcome k round size (code, none) s more small v b =
        ended (suc k) _ (stopped (suc k) code _ (counted k round size "error" code s more small b))
    after_reply-Outcome k round size (code, some t) s more small v b =
        act-Outcome (suc k) round t (count_round toolbox limits backend round size t.kind "" s) v
          (counted k round size t.kind "" s more small b)

    with_prompt-Outcome :
        (k round : ℕ) (size : Option ℕ) (reply : Reply N) (s : Session N)
        → suc k ≤ limits.max_rounds
        → Before k s
        → Outcome (suc k) (
            with_prompt toolbox limits backend setup.needs_coverage
              (inventory setup)
              round
              size
              reply
              s)
    with_prompt-Outcome k round none reply s more b = ended (suc k) _ (stopped k "prompt_limit" s b)
    with_prompt-Outcome k round (some size) reply s more b =
        elim (Bool-cases (ltb limits.max_prompt_bytes size)) [
          | inl e ↦ rw e (ended (suc k) _ (stopped k "prompt_limit" s b))
          | inr e ↦ rw e (
              after_reply-Outcome k round size (received toolbox limits backend reply) s more
                (ground arith) (received-Valid reply) b)
        ]

    run_round-Outcome :
        (k round : ℕ) (s : Session N)
        → suc k ≤ limits.max_rounds
        → Before k s
        → Outcome
            (suc k)
            (run_round toolbox limits backend setup.needs_coverage (inventory setup) round s)
    unfolding run_round
    run_round-Outcome k round s more b = with_prompt-Outcome k round _ _ s more b

    pub run_rounds_rule :
        (left k round : ℕ) (s : Session N)
        → k + left ≤ limits.max_rounds
        → Before k s
        → After
            (run_rounds toolbox limits backend setup.needs_coverage (inventory setup) left round s)
    unfolding run_rounds
    run_rounds_rule zero k round s fit b = left_over k s b
    run_rounds_rule (suc left) k round s fit b =
        let (next, goes_on) =
          run_round toolbox limits backend setup.needs_coverage (inventory setup) round s in
        let (on, off) = run_round-Outcome k round s (omega arith) b in
        elim (Bool-cases goes_on) [
          | inl e ↦
              rw (e, run_rounds)
                (run_rounds_rule left (suc k) (suc round) next (omega arith) (on e))
          | inr e ↦ rw (e, run_rounds) (off e)
        ]

    -- The early ends of a review, its rounds, and what follows them.
    pub review_rule :
        (Final : Session N → Type 0)
        → ((code : String) (s : Session N) → Before 0 s → Final (stop code s))
        → ((s : Session N) → After s → Final (close toolbox limits backend s))
        → ((b : Bool) (code : String) (s : Session N)
            → Before 0 s
            → Before 0 (gap_when toolbox limits backend b code s))
        → Before 0 (begin toolbox limits backend setup.status)
        → Final (review toolbox limits backend setup)
    unfolding review
    review_rule Final early closed gap begun = elim (Bool-cases (not setup.has_source_files)) [
      | inl e ↦ rw e (early "source_unavailable" (begin toolbox limits backend setup.status) begun)
      | inr e ↦ elim (Bool-cases (not setup.takes_turns)) [
        | inl f ↦
            rw (e, f)
              (early "unsupported_tool_backend" (begin toolbox limits backend setup.status) begun)
        | inr f ↦ elim (Bool-cases (has_no_tool toolbox.specs)) [
          | inl g ↦
              rw (e, f, g)
                (early "tools_unavailable" (prepared toolbox limits backend setup) catalogued)
          | inr g ↦
              rw (e, f, g)
                (closed _ (
                  run_rounds_rule limits.max_rounds 0 1 (ready toolbox limits backend setup)
                    (omega arith)
                    (gap (ltb 500 (length (inventory setup))) "finding_inventory_limit"
                      (prepared toolbox limits backend setup) catalogued)))
        ]
      ]
    ]
      where
        catalogued : Before 0 (prepared toolbox limits backend setup)
        catalogued =
            gap setup.has_catalog_gaps "source_catalog_gaps"
              (begin toolbox limits backend setup.status) begun
