-- ===== src/Agents/Exploration/Complete.antt =====
-- What a stage that stays completed has from its review
-- (scanner/src/aegify/agents/exploration.py).
use aegify.Base.{
  unique_from, ℕ, ◌≡◌, ◌≢◌, refl, sym, ◌∙◌, ap, Bool, true, false, String, Option, none, some, List,
  [], ◌∷◌, ◌&&◌, str_eq, Bool-cases, Option-cases, inl, inr, ◌⊎◌, eq_iff, subst,
}
use aegify.Agents.Exploration.Turns.{Turn, validate_turn}
use aegify.Agents.Exploration.Records.{Status, Narrative, Session, Limits, Toolbox}
use aegify.Agents.Exploration.Tools.{stop, call_tools, downgraded}
use aegify.Agents.Exploration.Rounds.{
  Finding, Backend, is_nil, coverage_gap, covered_ids, narrative_of, conclude,
}
use aegify.Agents.Exploration.Review.{Setup, inventory, close, gap_when, with_gaps, review}
use aegify.Agents.Exploration.Rule.{fits, review_rule}
use aegify.Agents.Exploration.Quiet.{HasGap, snoc-ne, gap_if-nil, call_tools-Quiet}

downgraded-ne : (s : Status) → downgraded s ≢ Status.completed
downgraded-ne Status.pending e = cc (e)
downgraded-ne Status.running e = cc (e)
downgraded-ne Status.waiting_approval e = cc (e)
downgraded-ne Status.completed e = cc (e)
downgraded-ne Status.partial e = cc (e)
downgraded-ne Status.failed e = cc (e)

nil-cases {ℓ} : {A : Type ℓ} (xs : List A) → (xs ≡ []) ⊎ (xs ≢ [])
nil-cases [] = inl refl
nil-cases (x ∷ xs) = inr (λ e. cc (e))

and_right : (a b : Bool) → (a && b) ≡ true → b ≡ true
and_right true b e = e
and_right false b e = absurd (cc)

not_tools : (kind : String) → str_eq kind "final" ≡ true → str_eq kind "tools" ≡ false
not_tools kind e = subst (λ k. str_eq k "tools" ≡ false) (sym ((eq_iff kind "final").0 e)) refl

module _ (toolbox : Toolbox) (limits : Limits) {N : Type 0} (backend : Backend N) where
  open backend use {prompt_size, invoke_turn, validate_narrative}

  narrated_of :
      (o : Option N)
      → (elim o [ none ↦ false | some n ↦ fits toolbox limits backend n ]) ≡ true
      → (n : Narrative N) × (narrative_of toolbox limits backend o ≡ some n)
  narrated_of none h = absurd (cc)
  narrated_of (some n) h = elim (Option-cases (validate_narrative n)) [
    | inl e ↦ let r : false ≡ true = rw e at h in absurd (cc)
    | inr found ↦ found
  ]

  told :
      (t : Turn N)
      → validate_turn (fits toolbox limits backend) (some t) ≡ true
      → str_eq t.kind "tools" ≡ false
      → (n : Narrative N) × (narrative_of toolbox limits backend t.narrative ≡ some n)
  unfolding validate_turn
  told t v e = narrated_of t.narrative (and_right _ _ (and_right _ _ (rw e at v)))

  module _ (needs : Bool) (findings : List Finding) where
    -- The review ended with a final turn that left nothing open.
    pub record IsAnswered (s : Session N) : Type 0 where
      pub gapless : s.trace.gaps ≡ []
      pub final : s.trace.stop_reason ≡ "final"
      pub cited : is_nil s.trace.citations ≡ false
      pub narrated : (n : Narrative N) × (s.narrative ≡ some n)
      pub listed : s.trace.covered_finding_ids ≡ covered_ids s.trace.citations findings
      pub covered : (needs && coverage_gap s.trace.covered_finding_ids findings) ≡ false

    abbrev Ended : Session N → Type 0
    Ended s = HasGap s ⊎ IsAnswered s

    conclude-Ended :
        (t : Turn N) (n : Narrative N) (s : Session N)
        → narrative_of toolbox limits backend t.narrative ≡ some n
        → Ended (conclude toolbox limits backend needs findings t s)
    unfolding conclude
    conclude-Ended t n s e =
        elim (nil-cases (conclude toolbox limits backend needs findings t s).trace.gaps) [
          | inr open_gaps ↦ inl open_gaps
          | inl none_left ↦
              let (covered, rest) = gap_if-nil _ _ _ none_left in
              let (cited, more) = gap_if-nil _ _ _ rest in
              inr (record {
                gapless = none_left;
                final = refl;
                cited = cited;
                narrated = (n, e);
                listed = refl;
                covered = covered;
              })
        ]

    stop-Ended : (code : String) (s : Session N) → Ended (stop code s)
    stop-Ended code s = inl (snoc-ne _ _)

    abbrev Unstopped : Session N → Type 0
    Unstopped s = s.trace.stop_reason ≡ ""

    call_tools-Ended :
        (round : ℕ) (t : Turn N) (s : Session N)
        → Unstopped s
        → let next = call_tools toolbox limits round 0 t.requests s in
          (str_eq next.trace.stop_reason "" ≡ true → Unstopped next)
          × (str_eq next.trace.stop_reason "" ≡ false → Unstopped next ⊎ Ended next)
    call_tools-Ended round t s q = elim (call_tools-Quiet toolbox limits t.requests round 0 s) [
      | inl r ↦ (λ e. r ∙ q, λ e. inl (r ∙ q))
      | inr (cut, gap) ↦ (λ e. absurd (cc (ap (λ x. str_eq x "") cut, e)), λ e. inr (inl gap))
    ]

    turn-Ended :
        (t : Turn N) (s : Session N)
        → validate_turn (fits toolbox limits backend) (some t) ≡ true
        → str_eq t.kind "final" ≡ true
        → Ended (conclude toolbox limits backend needs findings t s)
    turn-Ended t s v e = let (n, said) = told t v (not_tools t.kind e) in conclude-Ended t n s said

    with_gaps-IsAnswered :
        (gaps : List String) (s : Session N)
        → s.trace.gaps ≡ gaps
        → Ended s
        → (with_gaps toolbox limits backend (unique_from [] gaps) s).status ≡ Status.completed
        → IsAnswered (with_gaps toolbox limits backend (unique_from [] gaps) s)
    with_gaps-IsAnswered [] s e (inl gap) c = absurd (gap e)
    with_gaps-IsAnswered [] s e (inr a) c = record {
      gapless = refl;
      final = a.final;
      cited = a.cited;
      narrated = a.narrated;
      listed = a.listed;
      covered = a.covered;
    }
    with_gaps-IsAnswered (g ∷ gaps) s e ended c = absurd (downgraded-ne s.status c)

    close-IsAnswered :
        (s : Session N)
        → (s.trace.stop_reason ≡ "") ⊎ Ended s
        → (close toolbox limits backend s).status ≡ Status.completed
        → IsAnswered (close toolbox limits backend s)
    unfolding close
    close-IsAnswered s before c = elim (Bool-cases (str_eq s.trace.stop_reason "")) [
      | inl e ↦ rw e (
          with_gaps-IsAnswered _ (stop "round_limit" s) refl (stop-Ended "round_limit" s)
            (rw e at c))
      | inr e ↦ rw e (with_gaps-IsAnswered _ s refl (ended before e) (rw e at c))
    ]
      where
        ended :
            (s.trace.stop_reason ≡ "") ⊎ Ended s → str_eq s.trace.stop_reason "" ≡ false → Ended s
        ended (inl empty) e = absurd (cc (ap (λ x. str_eq x "") empty, e))
        ended (inr it) e = it

  gap_when-quiet :
      (b : Bool) (code : String) (s : Session N)
      → s.trace.stop_reason ≡ ""
      → (gap_when toolbox limits backend b code s).trace.stop_reason ≡ ""
  gap_when-quiet true code s e = e
  gap_when-quiet false code s e = e

  -- A stage that is still completed after its review got a final turn with a narrative: its reason to
  -- stop is "final", it has no gap, it cites at least one source, and where its role asks for that, the
  -- identifier of every finding is among the covered ones, which are those of the findings whose lines
  -- a citation holds.
  pub review-IsAnswered :
      (setup : Setup)
      → (review toolbox limits backend setup).status ≡ Status.completed
      → IsAnswered setup.needs_coverage (inventory setup) (review toolbox limits backend setup)
  review-IsAnswered setup =
      let needs = setup.needs_coverage in
      let findings = inventory setup in
      review_rule toolbox limits backend setup (λ k s. Unstopped needs findings s)
        (λ s. Unstopped needs findings s ⊎ Ended needs findings s)
        (λ k code s q. inr (stop-Ended needs findings code s)) (λ k s q. inl q)
        (λ k round size outcome code s more small q. q)
        (λ k t s v e q. inr (turn-Ended needs findings t s v e))
        (λ k round t s fit q. call_tools-Ended needs findings round t s q)
        (λ s. s.status ≡ Status.completed → IsAnswered needs findings s)
        (λ code s q c. absurd (downgraded-ne s.status c)) (close-IsAnswered needs findings)
        gap_when-quiet refl
