-- ===== src/Agents/Exploration/Sources.antt =====
-- The citations with which a review ends (scanner/src/aegify/agents/exploration.py).
use aegify.Base.{
  refl, subst, Bool, true, false, String, List, [], ◌∷◌, str_eq, Member, Bool-cases, inl, inr,
}
use aegify.Agents.Exploration.Turns.{Turn}
use aegify.Agents.Exploration.Records.{Citation, Session, Limits, Toolbox}
use aegify.Agents.Exploration.Tools.{call_tools, stop}
use aegify.Agents.Exploration.Rounds.{conclude, Finding, Backend}
use aegify.Agents.Exploration.Review.{Setup, inventory, close, gap_when, with_gaps, review}
use aegify.Agents.Exploration.Rule.{review_rule}
use aegify.Agents.Exploration.Issued.{Issued, Open, call_tools-Open, select-Found}

module _ (toolbox : Toolbox) (limits : Limits) {N : Type 0} (backend : Backend N) where
  -- Every citation of the review was issued.
  abbrev Sourced : Session N → Type 0
  Sourced s = (c : Citation) → Member c s.trace.citations → Issued toolbox s.results c

  none_cited : (s : Session N) → Open toolbox limits s → Sourced s
  none_cited s (found, empty) c m = let n = subst (Member c) empty m in elim n [ ]

  with_gaps-Sourced :
      (gaps : List String) (s : Session N)
      → Sourced s
      → Sourced (with_gaps toolbox limits backend gaps s)
  with_gaps-Sourced [] s h = h
  with_gaps-Sourced (g ∷ gaps) s h = h

  close-Sourced : (s : Session N) → Sourced s → Sourced (close toolbox limits backend s)
  unfolding close
  close-Sourced s h = elim (Bool-cases (str_eq s.trace.stop_reason "")) [
    | inl e ↦ rw e (with_gaps-Sourced _ (stop "round_limit" s) h)
    | inr e ↦ rw e (with_gaps-Sourced _ s h)
  ]

  conclude-Sourced :
      (b : Bool) (findings : List Finding) (t : Turn N) (s : Session N)
      → Open toolbox limits s
      → Sourced (conclude toolbox limits backend b findings t s)
  unfolding conclude
  conclude-Sourced b findings t s o c m =
      select-Found (Issued toolbox s.results) s.citations t.citation_ids c o.0 m

  gap_when-Open :
      (b : Bool) (code : String) (s : Session N)
      → Open toolbox limits s
      → Open toolbox limits (gap_when toolbox limits backend b code s)
  gap_when-Open true code s o = o
  gap_when-Open false code s o = o

  -- Every citation with which a review ends was issued in it: one of its tool results, which is
  -- neither failed nor truncated, of source_read or source_search, offers its location, the sources
  -- confirm the location, and the citation carries the identifier of that request.
  pub review-Issued :
      (setup : Setup) (c : Citation)
      → Member c (review toolbox limits backend setup).trace.citations
      → Issued toolbox (review toolbox limits backend setup).results c
  review-Issued setup =
      review_rule toolbox limits backend setup (λ k s. Open toolbox limits s) Sourced
        (λ k code s o. none_cited s o) (λ k s o. none_cited s o)
        (λ k round size outcome code s more small o. o)
        (λ k t s v e o. conclude-Sourced setup.needs_coverage (inventory setup) t s o)
        (λ k round t s fit o.
          let o' = call_tools-Open toolbox limits t.requests round 0 s o in
          (λ e. o', λ e. none_cited (call_tools toolbox limits round 0 t.requests s) o'))
        Sourced (λ code s o. none_cited s o) close-Sourced gap_when-Open
        (λ id c l. absurd (cc (l)), refl)
