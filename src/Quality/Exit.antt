-- ===== src/Quality/Exit.antt =====
-- When compare_owasp_reports (scanner/src/aegify/quality/comparison.py) exits with 0.
use aegify.Base.{
  ℕ, ◌&&◌, ◌||◌, ◌≡◌, ◌↔◌, ◌∙◌, sym, refl, Bool, true, false, not, [], ◌∷◌, if◌then◌else◌, all, any,
  All, arith, Bool-cases, inl, inr, str_eq, subst, ap, ok, some,
}
use mathlib.Core.Option.{some-injective}
use aegify.Quality.Cases.{
  Outcome, Channel, all_candidates, advisory, blocking, outcome_of, SavedCase, nonempty, valid_case,
}
use aegify.Quality.Metrics.{Floats}
use aegify.Quality.Evaluate.{filter}
use aegify.Quality.Compare.{
  Pairs, zip_strict, is_scored, both_scored, is_right, is_wrong, regressed, baseline_names,
  compare_channel,
}
use aegify.Quality.Answers.{
  is_answer, scored-is_answer, unscored-is_answer, nonempty-map-filter, any-filter, any-or,
  any-false-All, All-any-false, not-true,
}
use aegify.Quality.Gate.{ValidPair, zip-valid, compare_owasp_reports-pairs}
use aegify.Quality.Reports.{
  Report, Loaded, lost, exit_code, compare_pairs, Comparison, compare_owasp_reports,
}

-- Whether a valid case is scored is whether each channel has an answer.
answered :
    (h : Channel) (c : SavedCase)
    → valid_case c ≡ true
    → is_answer (outcome_of h c.outcomes) ≡ is_scored c
answered h c v = elim (Bool-cases (is_scored c)) [
  | inl e ↦ scored-is_answer h c v e ∙ sym e
  | inr e ↦ unscored-is_answer h c v e ∙ sym e
]

wrong_lem : (o : Outcome) → is_wrong o ≡ (is_answer o && not (is_right o))
wrong_lem Outcome.tp = refl
wrong_lem Outcome.fp = refl
wrong_lem Outcome.fn = refl
wrong_lem Outcome.tn = refl
wrong_lem Outcome.unscored = refl

right_lem : (o : Outcome) → is_right o ≡ (is_answer o && is_right o)
right_lem Outcome.tp = refl
right_lem Outcome.fp = refl
right_lem Outcome.fn = refl
right_lem Outcome.tn = refl
right_lem Outcome.unscored = refl

-- A pair is in the list of regressed cases of a channel.
abbrev listed : Channel → SavedCase × SavedCase → Bool
listed h p = both_scored p && regressed h p

-- What a pair keeps: being scored, and being right.
abbrev pub StaysScored : SavedCase × SavedCase → Type 0
StaysScored p = is_scored p.0 ≡ true → is_scored p.1 ≡ true

abbrev pub StaysRight : Channel → SavedCase × SavedCase → Type 0
StaysRight h p =
    is_right (outcome_of h p.0.outcomes) ≡ true → is_right (outcome_of h p.1.outcomes) ≡ true

abbrev pub Stays : SavedCase × SavedCase → Type 0
Stays p = StaysScored p × ((h : Channel) → StaysRight h p)

right_bool :
    (s t a b : Bool)
    → a ≡ (s && a)
    → b ≡ (t && b)
    → (s ≡ true → t ≡ true)
    → (((s && t) && (a && (t && not b))) ≡ false) ↔ (a ≡ true → b ≡ true)
right_bool s t a b p q k = (ground arith, ground arith)

stays_right :
    (h : Channel) (p : SavedCase × SavedCase)
    → ValidPair p
    → StaysScored p
    → (listed h p ≡ false) ↔ StaysRight h p
stays_right h p v k =
    let a = outcome_of h p.0.outcomes in
    let b = outcome_of h p.1.outcomes in
    let x : is_answer a ≡ is_scored p.0 = answered h p.0 v.0 in
    let y : is_answer b ≡ is_scored p.1 = answered h p.1 v.1 in
    let wrong : is_wrong b ≡ (is_scored p.1 && not (is_right b)) =
      wrong_lem b ∙ ap (λ z. z && not (is_right b)) y in
    rw wrong (
      right_bool (is_scored p.0) (is_scored p.1) (is_right a) (is_right b)
        (right_lem a ∙ ap (λ z. z && is_right a) x) (right_lem b ∙ ap (λ z. z && is_right b) y) k)

-- What makes a comparison fail for a pair.
abbrev broken : SavedCase × SavedCase → Bool
broken p = lost p || (listed all_candidates p || (listed advisory p || listed blocking p))

lost_lem : (p : SavedCase × SavedCase) → (lost p ≡ false) ↔ StaysScored p
unfolding lost
lost_lem p = implication (is_scored p.0) (is_scored p.1)
  where
    implication : (s t : Bool) → ((s && not t) ≡ false) ↔ (s ≡ true → t ≡ true)
    implication s t = (ground arith, ground arith)

or_false : (a b : Bool) → ((a || b) ≡ false) ↔ ((a ≡ false) × (b ≡ false))
or_false a b = (ground arith, ground arith)

broken_lem : (p : SavedCase × SavedCase) → ValidPair p → (broken p ≡ false) ↔ Stays p
broken_lem p v = (
  λ h.
      let (l, m) = (or_false (lost p) _).0 h in
      let (x, n) = (or_false (listed all_candidates p) _).0 m in
      let (y, z) = (or_false (listed advisory p) (listed blocking p)).0 n in
      let k = (lost_lem p).0 l in
      (
        k,
        elim [
          | all_candidates ↦ (stays_right all_candidates p v k).0 x
          | advisory ↦ (stays_right advisory p v k).0 y
          | blocking ↦ (stays_right blocking p v k).0 z
        ],
      ),
  λ h.
      let no = λ (c : Channel). (stays_right c p v h.0).1 (h.1 c) in
      (or_false (lost p) _).1 (
        (lost_lem p).1 h.0,
        (or_false (listed all_candidates p) _).1 (
          no all_candidates,
          (or_false (listed advisory p) (listed blocking p)).1 (no advisory, no blocking),
        ),
      ),
)

broken-Stays : (ps : Pairs) → All ValidPair ps → All (λ p. broken p ≡ false → Stays p) ps
broken-Stays [] v = tt
broken-Stays (p ∷ ps) v = ((broken_lem p v.0).0, broken-Stays ps v.1)

Stays-broken : (ps : Pairs) → All ValidPair ps → All (λ p. Stays p → broken p ≡ false) ps
Stays-broken [] v = tt
Stays-broken (p ∷ ps) v = ((broken_lem p v.0).1, Stays-broken ps v.1)

any-broken : (ps : Pairs) → All ValidPair ps → (any broken ps ≡ false) ↔ All Stays ps
any-broken ps v = (
  any-false-All Stays broken ps (broken-Stays ps v),
  All-any-false Stays broken ps (Stays-broken ps v),
)

module _ (floats : Floats) where
  regressed-any :
      (h : Channel) (ps : Pairs)
      → nonempty (compare_channel floats h ps).regressed_cases ≡ any (listed h) ps
  unfolding compare_channel
  regressed-any h ps =
      nonempty-map-filter (λ p. p.0.case) (regressed h) (filter both_scored ps)
      ∙ any-filter (regressed h) both_scored ps

  -- The gate of a comparison that asks for no regressions.
  unfoldable gate : Pairs → Bool
  gate ps =
      not (nonempty (baseline_names (filter lost ps)))
      && not (
          nonempty (compare_channel floats all_candidates ps).regressed_cases
          || (nonempty (compare_channel floats advisory ps).regressed_cases
              || nonempty (compare_channel floats blocking ps).regressed_cases))

  not_both : (a b : Bool) → (not a && not b) ≡ not (a || b)
  not_both true b = refl
  not_both false b = refl

  gate-any : (ps : Pairs) → gate ps ≡ not (any broken ps)
  unfolding gate
  gate-any ps =
      rw
        (
          nonempty-map-filter (λ p. p.0.case) lost ps,
          regressed-any all_candidates ps,
          regressed-any advisory ps,
          regressed-any blocking ps,
          any-or (listed advisory) (listed blocking) ps,
          any-or (listed all_candidates) (λ p. listed advisory p || listed blocking p) ps,
        )
        (not_both (any lost ps) _
          ∙ ap not (
              any-or lost (λ p. listed all_candidates p || (listed advisory p || listed blocking p))
                ps))

  gate-Stays : (ps : Pairs) → All ValidPair ps → (gate ps ≡ true) ↔ All Stays ps
  gate-Stays ps v =
      rw (gate-any ps)
        (λ h. (any-broken ps v).0 (not-true _ h), λ h. rw ((any-broken ps v).1 h) refl)

-- Neither report failed, and both were evaluated in full.
abbrev pub Complete : {J : Type 0} → Report J → Report J → Type 0
Complete before after =
    (str_eq before.analysis_status "failed" ≡ false)
    × (str_eq after.analysis_status "failed" ≡ false)
    × (before.evaluation_complete ≡ true)
    × (after.evaluation_complete ≡ true)

abbrev code_of : Bool → Bool → Bool → Bool → Bool → ℕ
code_of f g p c d = if f || g then 2 else (if not p then 1 else (if not (c && d) then 3 else 0))

exit_bool :
    (f g p c d : Bool)
    → (code_of f g p c d ≡ 0) ↔ (((f ≡ false) × (g ≡ false) × (c ≡ true) × (d ≡ true)) × (p ≡ true))
exit_bool f g p c d = (ground arith, ground arith)

module _ {J : Type 0} (json_eq : J → J → Bool) (null : J) (floats : Floats) where
  compare_pairs-exit_zero :
      (b c : Loaded J) (ps : Pairs)
      → All ValidPair ps
      → ((compare_pairs json_eq null floats false b c ps).exit_code ≡ 0)
        ↔ (Complete b.report c.report × All Stays ps)
  unfolding compare_pairs exit_code gate
  compare_pairs-exit_zero b c ps v =
      let k =
        exit_bool (str_eq b.report.analysis_status "failed")
          (str_eq c.report.analysis_status "failed") (gate floats ps) b.report.evaluation_complete
          c.report.evaluation_complete in
      let g = gate-Stays floats ps v in (λ h. ((k.0 h).0, g.0 (k.0 h).1), λ h. k.1 (h.0, g.1 h.1))

  -- Where the cases of two loaded reports are valid and their comparison without require_identical
  -- succeeds, its exit code is 0 exactly when no report failed, both were evaluated in full, every
  -- case that the baseline scores the candidate scores too, and in every channel each case that
  -- the baseline answers right the candidate answers right.
  pub compare_owasp_reports-exit_zero :
      (b c : Loaded J) (r : Comparison json_eq null floats) (ps : Pairs)
      → all valid_case b.cases ≡ true
      → all valid_case c.cases ≡ true
      → zip_strict b.cases c.cases ≡ some ps
      → compare_owasp_reports json_eq null floats false b c ≡ ok r
      → (r.exit_code ≡ 0) ↔ (Complete b.report c.report × All Stays ps)
  compare_owasp_reports-exit_zero b c r ps v w z e =
      let (qs, z', q) = compare_owasp_reports-pairs json_eq null floats false b c r e in
      let same : qs ≡ ps = some-injective qs ps (sym z' ∙ z) in
      subst (λ t. (r.exit_code ≡ 0) ↔ (Complete b.report c.report × All Stays t)) same
        (subst (λ t. (t.exit_code ≡ 0) ↔ (Complete b.report c.report × All Stays qs)) q
          (compare_pairs-exit_zero b c qs (zip-valid b.cases c.cases qs v w z')))
