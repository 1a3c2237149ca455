-- ===== src/Agents/Exploration/Review.antt =====
-- The start and the end of `AgentSourceExplorer.review` of scanner/src/aegify/agents/exploration.py.
use aegify.Base.{
  unique_from, ℕ, suc, zero, not, Bool, true, false, String, Option, none, some, List, [], ◌∷◌,
  ◌++◌, ltb, if◌then◌else◌, str_eq, length, Dict, sorted, text_before,
}
use aegify.Agents.Exploration.Turns.{ToolSpec}
use aegify.Agents.Exploration.Records.{Status, Narrative, Session, Limits, Toolbox}
use aegify.Agents.Exploration.Tools.{add_gap, stop, downgraded}
use aegify.Agents.Exploration.Rounds.{Finding, Backend, run_rounds}

-- `xs[:n]`
abbrev take {ℓ} : {A : Type ℓ} → ℕ → List A → List A
take n [] = []
take zero (x ∷ xs) = []
take (suc n) (x ∷ xs) = x ∷ take n xs

abbrev pub has_no_tool : Dict ToolSpec → Bool
has_no_tool [] = true
has_no_tool (x ∷ xs) = false

-- What a review starts from, for a stage that has no narrative yet. Its findings are those of the
-- context, and `needs_coverage` says that the role is STATIC or SYNTHESIS.
pub record Setup : Type 0 where
  pub has_source_files : Bool
  pub takes_turns : Bool
  pub has_catalog_gaps : Bool
  pub needs_coverage : Bool
  pub findings : List Finding
  pub status : Status

-- `sorted(context.findings.values(), key=lambda finding: finding.id)`
unfoldable pub inventory : Setup → List Finding
unfolding sorted
inventory setup = sorted (λ f g. text_before f.id g.id) setup.findings

module _ (toolbox : Toolbox) (limits : Limits) {N : Type 0} (backend : Backend N) where
  abbrev note_gaps : List String → Option (Narrative N) → Option (Narrative N)
  note_gaps gaps none = none
  note_gaps gaps (some n) =
      some (record n { evidence_gaps = take 50 (unique_from [] (gaps ++ n.evidence_gaps)) })

  abbrev pub with_gaps : List String → Session N → Session N
  with_gaps [] s = record s { trace = record s.trace { gaps = [] } }
  with_gaps (g ∷ gaps) s = record s {
    trace = record s.trace { gaps = g ∷ gaps };
    status = downgraded s.status;
    narrative = note_gaps (g ∷ gaps) s.narrative;
  }

  -- What follows the loop.
  unfoldable pub close : Session N → Session N
  close s =
      let s' = if str_eq s.trace.stop_reason "" then stop "round_limit" s else s in
      with_gaps (unique_from [] s'.trace.gaps) s'

  abbrev pub begin : Status → Session N
  begin status = record {
    results = [];
    cache = [];
    citations = [];
    evidence_bytes = 0;
    trace = record {
      model_calls = 0;
      tool_calls = 0;
      cached_calls = 0;
      prompt_bytes = 0;
      stop_reason = "";
      gaps = [];
      rounds = [];
      tools = [];
      citations = [];
      covered_finding_ids = [];
    };
    status = status;
    narrative = none;
    backend_error_code = "";
  }

  abbrev pub gap_when : Bool → String → Session N → Session N
  gap_when b code s = if b then record s { trace = add_gap code s.trace } else s

  -- The session with the gaps of the catalog.
  abbrev pub prepared : Setup → Session N
  prepared setup = gap_when setup.has_catalog_gaps "source_catalog_gaps" (begin setup.status)

  -- The session before the first round.
  abbrev pub ready : Setup → Session N
  ready setup =
      gap_when (ltb 500 (length (inventory setup))) "finding_inventory_limit" (prepared setup)

  -- `review`
  unfoldable pub review : Setup → Session N
  unfolding run_rounds close
  review setup =
      if not setup.has_source_files
      then stop "source_unavailable" (begin setup.status)
      else (if not setup.takes_turns
          then stop "unsupported_tool_backend" (begin setup.status)
          else (if has_no_tool toolbox.specs
              then stop "tools_unavailable" (prepared setup)
              else close (
                  run_rounds toolbox limits backend setup.needs_coverage (inventory setup)
                    limits.max_rounds 1 (ready setup))))
