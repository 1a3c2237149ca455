-- ===== src/Quality/Gate.antt =====
-- The gate of compare_owasp_reports (scanner/src/aegify/quality/comparison.py).
use aegify.Base.{
  ℕ, suc, ◌+◌, ◌&&◌, ◌≡◌, refl, Bool, true, false, not, Option, none, some, List, [], ◌∷◌,
  if◌then◌else◌, map, all, All, length, arith, Bool-cases, inl, inr, both_true, str_eq, subst, ap,
  ok, raise,
}
use mathlib.Core.Option.{some-injective}
use aegify.Quality.Cases.{Outcome, Channel, outcome_of, SavedCase, nonempty, valid_case}
use aegify.Quality.Metrics.{Floats, Metrics, case_metrics}
use aegify.Quality.Evaluate.{filter}
use aegify.Quality.Compare.{
  Pairs, zip_strict, is_scored, both_scored, is_right, is_wrong, regressed, improved,
  baseline_names, ChannelComparison, compare_channel,
}
use aegify.Quality.Answers.{
  is_answer, scored-is_answer, answer-wrong, one_if, rights, rights_step, length-filter_step,
}
use aegify.Quality.Reports.{
  Loaded, mismatches, compare_pairs, Comparison, compare_owasp_reports, ComparisonError,
}

-- Both cases of a pair are valid.
abbrev pub ValidPair : SavedCase × SavedCase → Type 0
ValidPair p = (valid_case p.0 ≡ true) × (valid_case p.1 ≡ true)

zipped :
    (b c : SavedCase) (r : Option Pairs) (ps : Pairs)
    → ValidPair (b, c)
    → ((qs : Pairs) → r ≡ some qs → All ValidPair qs)
    → elim r [ none ↦ none | some qs ↦ some ((b, c) ∷ qs) ] ≡ some ps
    → All ValidPair ps
zipped b c none ps v rest z = absurd (cc)
zipped b c (some qs) ps v rest z = subst (All ValidPair) (some-injective _ ps z) (v, rest qs refl)

pub zip-valid :
    (bs cs : List SavedCase) (ps : Pairs)
    → all valid_case bs ≡ true
    → all valid_case cs ≡ true
    → zip_strict bs cs ≡ some ps
    → All ValidPair ps
unfolding zip_strict
zip-valid [] [] ps v w z = subst (All ValidPair) (some-injective [] ps z) tt
zip-valid [] (c ∷ cs) ps v w z = absurd (cc)
zip-valid (b ∷ bs) [] ps v w z = absurd (cc)
zip-valid (b ∷ bs) (c ∷ cs) ps v w z =
    let (v', vs) = both_true (valid_case b) (all valid_case bs) v in
    let (w', ws) = both_true (valid_case c) (all valid_case cs) w in
    zipped b c (zip_strict bs cs) ps (v', w') (λ qs. zip-valid bs cs qs vs ws) z

pair_balance :
    (a b : Outcome)
    → is_answer a ≡ true
    → is_answer b ≡ true
    → one_if (is_right b) + one_if (is_right a && is_wrong b)
      ≡ one_if (is_right a) + one_if (is_wrong a && is_right b)
pair_balance a b p q = rw (answer-wrong a p, answer-wrong b q) (balance (is_right a) (is_right b))
  where
    balance : (x y : Bool) → one_if y + one_if (x && not y) ≡ one_if x + one_if (not x && y)
    balance true true = refl
    balance true false = refl
    balance false true = refl
    balance false false = refl

-- Among pairs that are answered on both sides.
answers_balance :
    (h : Channel) (ps : Pairs)
    → All ValidPair ps
    → rights (map (λ p. outcome_of h p.1.outcomes) (filter both_scored ps))
        + length (filter (regressed h) (filter both_scored ps))
      ≡ rights (map (λ p. outcome_of h p.0.outcomes) (filter both_scored ps))
        + length (filter (improved h) (filter both_scored ps))
answers_balance h [] v = refl
answers_balance h (p ∷ ps) v = elim (Bool-cases (both_scored p)) [
  | inl e ↦
      let (x, y) = both_true (is_scored p.0) (is_scored p.1) e in
      let a = scored-is_answer h p.0 v.0.0 x in
      let b = scored-is_answer h p.1 v.0.1 y in
      let js = filter both_scored ps in
      rw e (
        omega (
          arith,
          pair_balance (outcome_of h p.0.outcomes) (outcome_of h p.1.outcomes) a b,
          rights_step (outcome_of h p.0.outcomes) (map (λ q. outcome_of h q.0.outcomes) js),
          rights_step (outcome_of h p.1.outcomes) (map (λ q. outcome_of h q.1.outcomes) js),
          length-filter_step (regressed h) p js,
          length-filter_step (improved h) p js,
          answers_balance h ps v.1,
        ))
  | inr e ↦ rw e (answers_balance h ps v.1)
]

length-names : (ps : Pairs) → length (baseline_names ps) ≡ length ps
length-names [] = refl
length-names (p ∷ ps) = ap suc (length-names ps)

-- The guards of a comparison, and what is left when none raises.
passed :
    {A : Type 0} (e g k : ComparisonError) (d m : Bool) (o : Option Pairs) (f : Pairs → A) (r : A)
    → (if d
        then raise e
        else (if m then raise g else elim o [ none ↦ raise k | some ps ↦ ok (f ps) ]))
      ≡ ok r
    → (ps : Pairs) × (o ≡ some ps) × (f ps ≡ r)
passed e g k true m o f r h = absurd (cc)
passed e g k false true o f r h = absurd (cc)
passed e g k false false none f r h = absurd (cc)
passed e g k false false (some ps) f r h = (ps, refl, (cc))

module _ {J : Type 0} (json_eq : J → J → Bool) (null : J) (floats : Floats) where
  -- What a comparison returns was computed from the pairs of cases.
  pub compare_owasp_reports-pairs :
      (identical : Bool) (b c : Loaded J) (r : Comparison json_eq null floats)
      → compare_owasp_reports json_eq null floats identical b c ≡ ok r
      → (ps : Pairs) × (zip_strict b.cases c.cases ≡ some ps)
        × (compare_pairs json_eq null floats identical b c ps ≡ r)
  unfolding compare_owasp_reports
  compare_owasp_reports-pairs identical b c r h =
      passed ComparisonError.different_languages
        (ComparisonError.not_comparable (mismatches json_eq null b c)) ComparisonError.not_strict
        (not (str_eq b.report.language c.report.language)) (nonempty (mismatches json_eq null b c))
        (zip_strict b.cases c.cases) (compare_pairs json_eq null floats identical b c) r h

  abbrev pub right_answers : Metrics floats → ℕ
  right_answers m = m.true_positives + m.true_negatives

  -- In each channel, over the cases that both reports score, the right answers of the candidate
  -- and the cases it regressed are as many as the right answers of the baseline and the cases it
  -- improved.
  abbrev pub Balanced : ChannelComparison floats → Type 0
  Balanced k =
      right_answers k.candidate_paired_metrics + length k.regressed_cases
      ≡ right_answers k.baseline_paired_metrics + length k.improved_cases

  compare_channel-Balanced :
      (h : Channel) (ps : Pairs) → All ValidPair ps → Balanced (compare_channel floats h ps)
  unfolding compare_channel case_metrics
  compare_channel-Balanced h ps v =
      rw
        (
          length-names (filter (regressed h) (filter both_scored ps)),
          length-names (filter (improved h) (filter both_scored ps)),
        )
        (answers_balance h ps v)

  compare_pairs-Balanced :
      (identical : Bool) (b c : Loaded J) (h : Channel) (ps : Pairs)
      → All ValidPair ps
      → Balanced ((compare_pairs json_eq null floats identical b c ps).channels h)
  unfolding compare_pairs
  compare_pairs-Balanced identical b c h ps v = compare_channel-Balanced h ps v

  -- Where the cases of two loaded reports are valid and a comparison of them succeeds, in each
  -- channel the right answers of the candidate plus its regressed cases are as many as the right
  -- answers of the baseline plus the improved cases, counted over the cases that both score.
  pub compare_owasp_reports-balance :
      (identical : Bool) (b c : Loaded J) (r : Comparison json_eq null floats) (h : Channel)
      → all valid_case b.cases ≡ true
      → all valid_case c.cases ≡ true
      → compare_owasp_reports json_eq null floats identical b c ≡ ok r
      → Balanced (r.channels h)
  compare_owasp_reports-balance identical b c r h v w e =
      let (ps, z, q) = compare_owasp_reports-pairs identical b c r e in
      subst (λ k. Balanced (k.channels h)) q
        (compare_pairs-Balanced identical b c h ps (zip-valid b.cases c.cases ps v w z))
