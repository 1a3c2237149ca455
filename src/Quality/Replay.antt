-- ===== src/Quality/Replay.antt =====
-- The comparison of a loaded report with itself, as compare_owasp_reports of
-- scanner/src/aegify/quality/comparison.py makes it.
use aegify.Base.{
  ◌&&◌, ◌||◌, ◌≡◌, refl, Bool, true, false, not, Option, none, some, List, [], ◌∷◌, ◌++◌,
  if◌then◌else◌, str_eq, eq_refl, map, ok, keys, lookup, sorted_set, texts_eq_refl, arith, ℕ,
  Bool-cases, inl, inr,
}
use aegify.Models.Values.{Value, nat, negsuc, other}
use aegify.Quality.Cases.{
  Outcome, Channel, all_candidates, advisory, blocking, CaseOutcomes, outcome_of, UnscoredReason,
  SavedCase, same_bool,
}
use aegify.Quality.Metrics.{Floats}
use aegify.Quality.Evaluate.{filter}
use aegify.Quality.Compare.{
  value_eq, outcome_eq, reason_eq, outcomes_eq, case_eq, Pairs, zip_strict, is_right, is_wrong,
  is_scored, both_scored, regressed, compare_channel, outcome_text,
}
use aegify.Quality.Reports.{
  Report, Loaded, Provenance, lost, changed, mismatches, implementation_changes, same_run,
  exit_code, compare_pairs, Comparison, compare_owasp_reports, value_at,
}

value_eq_refl : (v : Value) → value_eq v v ≡ true
value_eq_refl (nat n) = ground arith
value_eq_refl (negsuc n) = ground arith
value_eq_refl other = refl

reason_eq_refl : (r : Option UnscoredReason) → reason_eq r r ≡ true
unfolding reason_eq
reason_eq_refl none = refl
reason_eq_refl (some UnscoredReason.analysis_incomplete) = refl
reason_eq_refl (some UnscoredReason.file_not_analyzed) = refl
reason_eq_refl (some UnscoredReason.no_executed_cwe_rule) = refl

outcomes_eq_refl : (o : CaseOutcomes) → outcomes_eq o o ≡ true
unfolding outcomes_eq outcome_eq
outcomes_eq_refl o = rw (
  eq_refl (outcome_text o.all_candidates),
  eq_refl (outcome_text o.advisory),
  eq_refl (outcome_text o.blocking),
)

same_bool_refl : (b : Bool) → same_bool b b ≡ true
same_bool_refl true = refl
same_bool_refl false = refl

case_eq_refl : (c : SavedCase) → case_eq c c ≡ true
unfolding case_eq
case_eq_refl c = rw (
  eq_refl c.case,
  eq_refl c.file_path,
  eq_refl c.category,
  value_eq_refl c.cwe,
  same_bool_refl c.positive,
  reason_eq_refl c.unscored_reason,
  outcomes_eq_refl c.outcomes,
  texts_eq_refl c.matched_rules,
  value_eq_refl c.matched_finding_count,
)

abbrev twice : List SavedCase → Pairs
twice cs = map (λ c. (c, c)) cs

zip_twice : (cs : List SavedCase) → zip_strict cs cs ≡ some (twice cs)
unfolding zip_strict
zip_twice [] = refl
zip_twice (c ∷ cs) = rw (zip_twice cs)

filter-empty {ℓ} :
    {A : Type ℓ} (p : A → Bool) (xs : List A) → ((x : A) → p x ≡ false) → filter p xs ≡ []
filter-empty p [] h = refl
filter-empty p (x ∷ xs) h = rw (h x) (filter-empty p xs h)

module _ (p : SavedCase × SavedCase → Bool) (never : (c : SavedCase) → p (c, c) ≡ false) where
  filter-twice : (cs : List SavedCase) → filter p (twice cs) ≡ []
  filter-twice [] = refl
  filter-twice (c ∷ cs) = rw (never c) (filter-twice cs)

  filter-scored : (cs : List SavedCase) → filter p (filter both_scored (twice cs)) ≡ []
  filter-scored [] = refl
  filter-scored (c ∷ cs) = elim (Bool-cases (both_scored (c, c))) [
    | inl e ↦ rw (e, never c) (filter-scored cs)
    | inr e ↦ rw e (filter-scored cs)
  ]

never_changed : (c : SavedCase) → changed (c, c) ≡ false
unfolding changed
never_changed c = rw (case_eq_refl c) refl

never_lost : (c : SavedCase) → lost (c, c) ≡ false
unfolding lost
never_lost c = none_such (is_scored c)
  where
    none_such : (b : Bool) → (b && not b) ≡ false
    none_such true = refl
    none_such false = refl

right_and_wrong : (o : Outcome) → (is_right o && is_wrong o) ≡ false
right_and_wrong Outcome.tp = refl
right_and_wrong Outcome.fp = refl
right_and_wrong Outcome.fn = refl
right_and_wrong Outcome.tn = refl
right_and_wrong Outcome.unscored = refl

never_regressed : (h : Channel) (c : SavedCase) → regressed h (c, c) ≡ false
never_regressed h c = right_and_wrong (outcome_of h c.outcomes)

module _ (floats : Floats) where
  regressed-twice :
      (h : Channel) (cs : List SavedCase)
      → (compare_channel floats h (twice cs)).regressed_cases ≡ []
  unfolding compare_channel
  regressed-twice h cs = rw (filter-scored (regressed h) (never_regressed h) cs)

-- The exit code of a replay.
abbrev pub replay_code : {J : Type 0} → Report J → ℕ
replay_code r =
    if str_eq r.analysis_status "failed" then 2 else (if not r.evaluation_complete then 3 else 0)

module _ {J : Type 0} (json_eq : J → J → Bool) (null : J)
    (json_eq_refl : (u : J) → json_eq u u ≡ true) (floats : Floats) where
  no_changes : (p : Provenance J) → implementation_changes json_eq null p p ≡ []
  unfolding implementation_changes
  no_changes p = rw (
    texts_eq_refl p.evaluated_rules,
    filter-empty
        (λ key. not (
          json_eq (value_at json_eq null (lookup key p.implementation))
            (value_at json_eq null (lookup key p.implementation))))
        (sorted_set (keys p.implementation ++ keys p.implementation))
        (λ key. rw (json_eq_refl (value_at json_eq null (lookup key p.implementation))) refl),
  )

  no_mismatches : (b : Loaded J) → mismatches json_eq null b b ≡ []
  unfolding mismatches
  no_mismatches b = rw (
    eq_refl b.report.provenance.corpus_digest,
    eq_refl b.report.provenance.ground_truth_digest,
    eq_refl b.report.provenance.config_digest,
    eq_refl b.case_identity_digest,
  )

  same_run_refl : (r : Report J) → same_run json_eq null r r ≡ true
  unfolding same_run
  same_run_refl r = rw (
    value_eq_refl r.provenance.requested_files,
    value_eq_refl r.provenance.analyzed_files,
    eq_refl r.provenance.parser_execution,
    json_eq_refl r.provenance.workspace_snapshot,
    eq_refl r.analysis_status,
    json_eq_refl r.analysis_gaps,
    json_eq_refl r.unscored_findings,
  )

  abbrev replayed : Bool → Loaded J → Comparison json_eq null floats
  replayed identical b = compare_pairs json_eq null floats identical b b (twice b.cases)

  replay-ok :
      (identical : Bool) (b : Loaded J)
      → compare_owasp_reports json_eq null floats identical b b ≡ ok (replayed identical b)
  unfolding compare_owasp_reports
  replay-ok identical b = rw (eq_refl b.report.language, no_mismatches b, zip_twice b.cases)

  replay_exit : (r : Report J) → exit_code json_eq null floats r r true ≡ replay_code r
  unfolding exit_code
  replay_exit r = halves (str_eq r.analysis_status "failed") r.evaluation_complete
    where
      halves :
          (f c : Bool)
          → ◌≡◌ {A = ℕ}
              (if f || f then 2 else (if not (c && c) then 3 else 0))
              (if f then 2 else (if not c then 3 else 0))
      halves f c = ground arith

  gate_true : (identical : Bool) → (if identical then true else true) ≡ true
  gate_true true = refl
  gate_true false = refl

  abbrev Replays : Loaded J → Comparison json_eq null floats → Type 0
  Replays b r =
      (r.identical_replay ≡ true)
      × (r.regression_free ≡ true)
      × (r.changed_cases ≡ [])
      × (r.exit_code ≡ replay_code b.report)

  replayed-Replays : (identical : Bool) (b : Loaded J) → Replays b (replayed identical b)
  unfolding compare_pairs
  replayed-Replays identical b =
      rw
        (
          no_changes b.report.provenance,
          filter-twice changed never_changed b.cases,
          filter-twice lost never_lost b.cases,
          same_run_refl b.report,
          regressed-twice floats all_candidates b.cases,
          regressed-twice floats advisory b.cases,
          regressed-twice floats blocking b.cases,
          gate_true identical,
        )
        (refl, refl, refl, replay_exit b.report)

  -- Where the equality of JSON values is reflexive, comparing a loaded report with itself succeeds in
  -- both modes: it is an identical replay, free of regressions, with no changed case, and the exit
  -- code is 2 for a failed report, 3 for one that was not evaluated in full, and otherwise 0.
  pub compare_owasp_reports_self :
      (identical : Bool) (b : Loaded J)
      → (r : Comparison json_eq null floats) × (compare_owasp_reports json_eq null floats identical
            b b
          ≡ ok r)
        × (r.identical_replay ≡ true)
        × (r.regression_free ≡ true)
        × (r.changed_cases ≡ [])
        × (r.exit_code ≡ replay_code b.report)
  compare_owasp_reports_self identical b =
      let (i, f, c, e) = replayed-Replays identical b in
      (replayed identical b, replay-ok identical b, i, f, c, e)
