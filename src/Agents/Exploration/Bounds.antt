-- ===== src/Agents/Exploration/Bounds.antt =====
-- The limits of a review (scanner/src/aegify/agents/exploration.py).
use aegify.Base.{
  ℕ, suc, ◌+◌, ◌≤◌, ◌≡◌, refl, sym, ◌∙◌, Bool, true, false, String, List, [], ◌∷◌, ltb, str_eq, All,
  All-append, length, length-append, sum_by, sum_by-append, Bool-cases, inl, inr, arith,
}
use aegify.Agents.Exploration.Turns.{Turn}
use aegify.Agents.Exploration.Records.{RoundTrace, Status, Session, Limits, Toolbox}
use aegify.Agents.Exploration.Tools.{stop, call_tools}
use aegify.Agents.Exploration.Calls.{weight, Counts, Within, stop-Counts, call_tools-Within}
use aegify.Agents.Exploration.Rule.{review_rule}
use aegify.Agents.Exploration.Rounds.{Finding, Backend, conclude, count_round}
use aegify.Agents.Exploration.Review.{Setup, inventory, close, begin, gap_when, with_gaps, review}

module _ (toolbox : Toolbox) (limits : Limits) {N : Type 0} (backend : Backend N) where
  count_round-Counts :
      (k n round size : ℕ) (outcome code : String) (s : Session N)
      → size ≤ limits.max_prompt_bytes
      → Counts toolbox limits k n s
      → Counts toolbox limits
          (suc k)
          n
          (count_round toolbox limits backend round size outcome code s)
  count_round-Counts k n round size outcome code s le c =
      let r : RoundTrace = record {
        round = round;
        prompt_bytes = size;
        outcome = outcome;
        error_code = code;
      } in
      let a = c.asked in
      let more = length-append s.trace.rounds (r ∷ []) in
      let sums = sum_by-append (λ (x : RoundTrace). x.prompt_bytes) s.trace.rounds (r ∷ []) in
      record {
        counted = c.counted;
        listed = c.listed;
        called = c.called;
        fits = c.fits;
        weighed = c.weighed;
        asked = record {
          asked = omega (arith, a.asked, more);
          bounded = omega (arith, a.bounded, more);
          sized =
              All-append (λ x. x.prompt_bytes ≤ limits.max_prompt_bytes) s.trace.rounds (r ∷ [])
                a.sized (le, tt);
          summed = omega (arith, a.summed, sums);
        };
      }

  conclude-Counts :
      (k n : ℕ) (b : Bool) (findings : List Finding) (t : Turn N) (s : Session N)
      → Counts toolbox limits k n s
      → Counts toolbox limits k n (conclude toolbox limits backend b findings t s)
  unfolding conclude
  conclude-Counts k n b findings t s c = record {
    counted = c.counted;
    listed = c.listed;
    called = c.called;
    fits = c.fits;
    weighed = c.weighed;
    asked = c.asked;
  }

  abbrev Bounded : ℕ → Session N → Type 0
  Bounded k = Within toolbox limits k limits.max_tool_calls

  wider :
      (k m n : ℕ) (s : Session N)
      → k ≤ m
      → Counts toolbox limits k n s
      → Counts toolbox limits m n s
  wider k m n s le c =
      let a = c.asked in
      record {
        counted = c.counted;
        listed = c.listed;
        called = c.called;
        fits = c.fits;
        weighed = c.weighed;
        asked = record {
          asked = a.asked;
          bounded = omega (arith, a.bounded, le);
          sized = a.sized;
          summed = a.summed;
        };
      }

  with_gaps-Counts :
      (k n : ℕ) (gaps : List String) (s : Session N)
      → Counts toolbox limits k n s
      → Counts toolbox limits k n (with_gaps toolbox limits backend gaps s)
  with_gaps-Counts k n [] s c = record {
    counted = c.counted;
    listed = c.listed;
    called = c.called;
    fits = c.fits;
    weighed = c.weighed;
    asked = c.asked;
  }
  with_gaps-Counts k n (g ∷ gaps) s c = record {
    counted = c.counted;
    listed = c.listed;
    called = c.called;
    fits = c.fits;
    weighed = c.weighed;
    asked = c.asked;
  }

  close-Counts :
      (k n : ℕ) (s : Session N)
      → Counts toolbox limits k n s
      → Counts toolbox limits k n (close toolbox limits backend s)
  unfolding close
  close-Counts k n s c = elim (Bool-cases (str_eq s.trace.stop_reason "")) [
    | inl e ↦ rw e (with_gaps-Counts k n _ _ (stop-Counts toolbox limits "round_limit" s c))
    | inr e ↦ rw e (with_gaps-Counts k n _ s c)
  ]

  gap_when-Counts :
      (k n : ℕ) (b : Bool) (code : String) (s : Session N)
      → Counts toolbox limits k n s
      → Counts toolbox limits k n (gap_when toolbox limits backend b code s)
  gap_when-Counts k n true code s c = ground arith
  gap_when-Counts k n false code s c = c

  start : (status : Status) → Counts toolbox limits 0 0 (begin toolbox limits backend status)
  start status = record {
    counted = refl;
    listed = refl;
    called = omega arith;
    fits = omega arith;
    weighed = omega arith;
    asked = record { asked = refl; bounded = omega arith; sized = tt; summed = refl };
  }

  abbrev Before : ℕ → Session N → Type 0
  Before k s = (k ≤ limits.max_rounds) × Bounded k s

  last : (k : ℕ) (s : Session N) → Before k s → Bounded limits.max_rounds s
  last k s (le, (n, fits, c)) = (n, fits, wider k limits.max_rounds n s le c)

  stop-Bounded : (k : ℕ) (code : String) (s : Session N) → Bounded k s → Bounded k (stop code s)
  stop-Bounded k code s (n, fits, c) = (n, fits, stop-Counts toolbox limits code s c)

  call_tools-Bounded :
      (k round : ℕ) (t : Turn N) (s : Session N)
      → ltb limits.max_tool_calls (length s.results + length t.requests) ≡ false
      → Bounded k s
      → Bounded k (call_tools toolbox limits round 0 t.requests s)
  call_tools-Bounded k round t s fit (n, fits, c) =
      let room = c.counted in
      call_tools-Within toolbox limits k t.requests n limits.max_tool_calls round 0 s (ground arith)
        c

  review-Bounded : (setup : Setup) → Bounded limits.max_rounds (review toolbox limits backend setup)
  review-Bounded setup =
      review_rule toolbox limits backend setup Before (Bounded limits.max_rounds)
        (λ k code s b. stop-Bounded limits.max_rounds code s (last k s b)) last
        (λ k round size outcome code s more small b.
          let (le, (n, fits, c)) = b in
          (more, (n, fits, count_round-Counts k n round size outcome code s small c)))
        (λ k t s v e b.
          let (n, fits, c) = last k s b in
          (
            n,
            fits,
            conclude-Counts limits.max_rounds n setup.needs_coverage (inventory setup) t s c,
          ))
        (λ k round t s fit b.
          let (le, bounded) = b in
          let next = call_tools-Bounded k round t s fit bounded in
          (
            λ e. (le, next),
            λ e. last k (call_tools toolbox limits round 0 t.requests s) (le, next),
          ))
        (Bounded limits.max_rounds) (λ code s b. stop-Bounded limits.max_rounds code s (last 0 s b))
        (λ s b. let (n, fits, c) = b in (n, fits, close-Counts limits.max_rounds n s c))
        (λ b code s before.
          let (le, (n, fits, c)) = before in (le, (n, fits, gap_when-Counts 0 n b code s c)))
        (omega arith, (0, omega arith, start setup.status))

  -- A review keeps its limits, however it ends: it has at most as many tool results as tool calls are
  -- allowed, each listed as evidence and counted as executed or cached; the encodings of its results,
  -- without those that report the limit of the evidence, together are no longer than the evidence
  -- bytes that it counts, which are within their limit; it asks the model at most as often as rounds
  -- are allowed, counts each of these rounds, and no prompt is longer than allowed; and the total of
  -- the prompts is their sum.
  pub review-bounds :
      (setup : Setup)
      → let s = review toolbox limits backend setup in
        (length s.results ≤ limits.max_tool_calls)
        × (length s.trace.tools ≡ length s.results)
        × (s.trace.tool_calls + s.trace.cached_calls ≡ length s.results)
        × (sum_by (weight toolbox) s.results ≤ s.evidence_bytes)
        × (s.evidence_bytes ≤ limits.max_evidence_bytes)
        × (s.trace.model_calls ≡ length s.trace.rounds)
        × (length s.trace.rounds ≤ limits.max_rounds)
        × All (λ r. r.prompt_bytes ≤ limits.max_prompt_bytes) s.trace.rounds
        × (s.trace.prompt_bytes ≡ sum_by (λ r. r.prompt_bytes) s.trace.rounds)
  review-bounds setup =
      let (n, le, c) = review-Bounded setup in
      let a = c.asked in
      (
        omega (arith, c.counted),
        c.listed ∙ sym c.counted,
        c.called ∙ sym c.counted,
        c.weighed,
        c.fits,
        a.asked,
        a.bounded,
        a.sized,
        a.summed,
      )
