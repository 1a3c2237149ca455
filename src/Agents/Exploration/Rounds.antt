-- ===== src/Agents/Exploration/Rounds.antt =====
-- The rounds of `AgentSourceExplorer.review` of scanner/src/aegify/agents/exploration.py.
use aegify.Base.{
  ℕ, suc, zero, ◌+◌, ◌-◌, not, ◌&&◌, Bool, true, false, String, Option, none, some, List, [], ◌∷◌,
  ◌++◌, ltb, leb, ◌==◌, if◌then◌else◌, str_eq, str_mem, any, length, Dict, lookup,
}
use aegify.Agents.Exploration.Turns.{Turn, validate_turn}
use aegify.Agents.Exploration.Records.{
  Citation, ToolResult, RoundTrace, Narrative, Session, Limits, Toolbox,
}
use aegify.Agents.Exploration.Tools.{stop, call_tools}

-- What is read of a finding: `location` is `sources.finding_location(finding)`, a repository and a path.
pub record Finding : Type 0 where
  pub id : String
  pub location : Option (String × String)
  pub line_start : ℕ
  pub line_end : ℕ

-- What a prompt is made of, as far as it changes from round to round.
pub record Payload : Type 0 where
  pub tool_results : List ToolResult
  pub gaps : List String
  pub round : ℕ
  pub remaining_tool_requests : ℕ

-- How `invoke_turn` ends: an error with a code or another exception, or a response with the size of its
-- JSON (none where it has no encoding) and the turn that it is.
pub data Reply (N : Type 0) : Type 0 where
  failed : String → Reply N
  crashed : Reply N
  replied : Option ℕ → Option (Turn N) → Reply N

-- The model, the size of a prompt (none where it cannot be made), and `_validate_narrative`.
pub record Backend (N : Type 0) : Type 0 where
  pub prompt_size : Payload → Option ℕ
  pub invoke_turn : Payload → Reply N
  pub validate_narrative : N → Option (Narrative N)

abbrev pub is_some {ℓ} : {A : Type ℓ} → Option A → Bool
is_some none = false
is_some (some a) = true

-- `[citations[citation] for citation in selected if citation in citations]`
abbrev pub select : Dict Citation → List String → List Citation
select citations [] = []
select citations (id ∷ ids) =
    let rest = select citations ids in
    elim (lookup id citations) [ none ↦ rest | some c ↦ c ∷ rest ]

abbrev contains_lines : Finding → Option (String × String) → Citation → Bool
contains_lines f none c = false
contains_lines f (some (repository, path)) c =
    (str_eq c.location.repository_id repository && str_eq c.location.path path)
    && (leb c.location.line_start f.line_start && leb f.line_end c.location.line_end)

-- Some citation holds the lines of the finding.
abbrev pub is_covered : List Citation → Finding → Bool
is_covered citations f = any (contains_lines f f.location) citations

abbrev pub covered_ids : List Citation → List Finding → List String
covered_ids citations [] = []
covered_ids citations (f ∷ fs) =
    let rest = covered_ids citations fs in if is_covered citations f then f.id ∷ rest else rest

abbrev pub gap_if : Bool → String → List String → List String
gap_if false code gaps = gaps
gap_if true code gaps = gaps ++ code ∷ []

abbrev pub is_nil : List Citation → Bool
is_nil [] = true
is_nil (c ∷ cs) = false

abbrev pub coverage_gap : List String → List Finding → Bool
coverage_gap covered findings = any (λ f. not (str_mem f.id covered)) findings

module _ (toolbox : Toolbox) (limits : Limits) {N : Type 0} (backend : Backend N) where
  open backend use {prompt_size, invoke_turn, validate_narrative}

  abbrev pub narrative_of : Option N → Option (Narrative N)
  narrative_of none = none
  narrative_of (some n) = validate_narrative n

  -- The turn of kind "final".
  unfoldable pub conclude : Bool → List Finding → Turn N → Session N → Session N
  conclude needs_coverage findings t s =
      let cited = select s.citations t.citation_ids in
      let covered = covered_ids cited findings in
      let invalid = any (λ id. not (is_some (lookup id s.citations))) t.citation_ids in
      record s {
        narrative = narrative_of t.narrative;
        trace = record s.trace {
          gaps =
              gap_if (needs_coverage && coverage_gap covered findings)
                "finding_source_coverage_incomplete"
                (gap_if (is_nil cited) "source_citations_required"
                  (gap_if invalid "invalid_source_citations" s.trace.gaps));
          citations = cited;
          covered_finding_ids = covered;
          stop_reason = "final";
        };
      }

  -- The `try` block: the code of the error that it raises, or the turn.
  abbrev pub received : Reply N → String × Option (Turn N)
  received (Reply.failed code) = (code, none)
  received Reply.crashed = ("invalid_response", none)
  received (Reply.replied none t) = ("invalid_response", none)
  received (Reply.replied (some n) t) =
      if ltb limits.max_response_bytes n
      then ("response_limit", none)
      else (if validate_turn (λ k. is_some (validate_narrative k)) t
          then ("", t)
          else ("invalid_response", none))

  -- `trace.rounds.append(...)` and the totals.
  abbrev pub count_round : ℕ → ℕ → String → String → Session N → Session N
  count_round round size outcome code s =
      let r : RoundTrace = record {
        round = round;
        prompt_bytes = size;
        outcome = outcome;
        error_code = code;
      } in
      record s {
        trace = record s.trace {
          rounds = s.trace.rounds ++ r ∷ [];
          model_calls = s.trace.model_calls + 1;
          prompt_bytes = s.trace.prompt_bytes + size;
        };
      }

  abbrev payload_of : ℕ → Session N → Payload
  payload_of round s = record {
    tool_results = s.results;
    gaps = s.trace.gaps;
    round = round;
    remaining_tool_requests = limits.max_tool_calls - length s.results;
  }

  -- What follows a turn, and whether the loop goes on.
  unfoldable pub act : Bool → List Finding → ℕ → Turn N → Session N → Session N × Bool
  unfolding conclude
  act needs_coverage findings round t s =
      if str_eq t.kind "final"
      then (conclude needs_coverage findings t s, false)
      else (if round == limits.max_rounds
          then (stop "round_limit" s, false)
          else (if ltb limits.max_tool_calls (length s.results + length t.requests)
              then (stop "tool_limit" s, false)
              else let next = call_tools toolbox limits round 0 t.requests s in
                (next, str_eq next.trace.stop_reason "")))

  abbrev pub after_reply :
      Bool → List Finding → ℕ → ℕ → String × Option (Turn N) → Session N → Session N × Bool
  after_reply needs_coverage findings round size (code, none) s =
      (stop code (count_round round size "error" code s), false)
  after_reply needs_coverage findings round size (code, some t) s =
      act needs_coverage findings round t (count_round round size t.kind "" s)

  abbrev pub with_prompt :
      Bool → List Finding → ℕ → Option ℕ → Reply N → Session N → Session N × Bool
  with_prompt needs_coverage findings round none reply s = (stop "prompt_limit" s, false)
  with_prompt needs_coverage findings round (some size) reply s =
      if ltb limits.max_prompt_bytes size
      then (stop "prompt_limit" s, false)
      else after_reply needs_coverage findings round size (received reply) s

  -- The body of the loop, and whether the loop goes on.
  unfoldable pub run_round : Bool → List Finding → ℕ → Session N → Session N × Bool
  unfolding act
  run_round needs_coverage findings round s =
      let payload = payload_of round s in
      with_prompt needs_coverage findings round (prompt_size payload) (invoke_turn payload) s

  -- The loop, by the rounds that are left.
  unfoldable pub run_rounds : Bool → List Finding → ℕ → ℕ → Session N → Session N
  unfolding run_round
  run_rounds needs_coverage findings zero round s = s
  run_rounds needs_coverage findings (suc left) round s =
      let (next, goes_on) = run_round needs_coverage findings round s in
      elim goes_on [
        | true ↦ run_rounds needs_coverage findings left (suc round) next
        | false ↦ next
      ]
