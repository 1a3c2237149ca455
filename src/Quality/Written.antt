-- ===== src/Quality/Written.antt =====
-- What evaluate_cases (scanner/src/aegify/quality/owasp.py) writes, as SavedCase
-- (scanner/src/aegify/quality/comparison.py) reads it.
use aegify.Base.{
  ℕ, suc, ◌<◌, ◌&&◌, ◌||◌, ◌≡◌, refl, Bool, true, false, not, String, Option, none, some, List, [],
  ◌∷◌, ◌++◌, leb, ◌==◌, length, if◌then◌else◌, str_eq, map, any, all, Result, ok, raise, Dict,
  lookup, insert, sorted, sorted_set, texts_eq, texts_eq_refl, text_before, arith,
  sorted_set-sorted_set, sorted_set-all, sorted_set-nonempty, length-sorted_set-le, both_true,
  Bool-cases, inl, inr, eq_refl, le→leb, Codes, subst, ap,
}
use aegify.Quality.Cases.{
  is_hit, fits_label, UnscoredReason, SavedCase, is_some, python_path, java_path, nonempty,
  same_bool, is_rule_id, valid_identity, valid_outcomes, validate_identity_and_outcomes,
}
use aegify.Quality.Metrics.{Floats}
use aegify.Quality.Owasp.{
  BenchmarkCase, Finding, Scan, Observed, found, observe, observe_at, executed_rules, relative_path,
  reason_of, outcome, row_of, is_advisory, blocks_ci, case_path, same_number,
}
use aegify.Quality.Evaluate.{Evaluation, EvaluationError, evaluate_cases, rows, report}

unfoldable rule_ok : Finding → Bool
rule_ok f = is_rule_id f.rule_id

unfoldable pub rules_ok : List Finding → Bool
unfolding rule_ok
rules_ok fs = all rule_ok fs

rules-append :
    (fs gs : List Finding) → rules_ok fs ≡ true → rules_ok gs ≡ true → rules_ok (fs ++ gs) ≡ true
unfolding rules_ok
rules-append [] gs p q = q
rules-append (f ∷ fs) gs p q =
    let (a, b) = both_true (rule_ok f) (rules_ok fs) p in rw a (rules-append fs gs b q)

-- Every observed finding has a rule of the program.
unfoldable kept_ok : Dict (List Finding) → Bool
kept_ok [] = true
kept_ok ((k, fs) ∷ d) = rules_ok fs && kept_ok d

kept-insert :
    (k : String) (fs : List Finding) (d : Dict (List Finding))
    → rules_ok fs ≡ true
    → kept_ok d ≡ true
    → kept_ok (insert k fs d) ≡ true
unfolding kept_ok
kept-insert k fs [] p q = rw p refl
kept-insert k fs ((j, gs) ∷ d) p q =
    let (a, b) = both_true (rules_ok gs) (kept_ok d) q in
    elim (Bool-cases (str_eq j k)) [
      | inl e ↦ rw (e, p) b
      | inr e ↦ rw (e, a) (kept-insert k fs d p b)
    ]

kept-lookup :
    (k : String) (d : Dict (List Finding)) → kept_ok d ≡ true → rules_ok (found (lookup k d)) ≡ true
unfolding kept_ok rules_ok
kept-lookup k [] q = refl
kept-lookup k ((j, gs) ∷ d) q =
    let (a, b) = both_true (rules_ok gs) (kept_ok d) q in
    elim (Bool-cases (str_eq j k)) [ inl e ↦ rw e a | inr e ↦ rw e (kept-lookup k d b) ]

only_ok : (f : Finding) → rule_ok f ≡ true → rules_ok (f ∷ []) ≡ true
unfolding rules_ok
only_ok f p = rw p refl

record Keeps (s : Observed) : Type 0 where
  observed_ok : kept_ok s.observations ≡ true

observe_at-Keeps :
    (executed : Dict ℕ) (f : Finding) (c : Option BenchmarkCase) (s : Observed)
    → rule_ok f ≡ true
    → kept_ok s.observations ≡ true
    → Keeps (observe_at executed f c s)
unfolding observe_at
observe_at-Keeps executed f none s p q = record { observed_ok = q }
observe_at-Keeps executed f (some c) s p q =
    let cwe = lookup f.rule_id executed in
    elim (Bool-cases (not (is_some cwe) || not (same_number cwe f.cwe_id))) [
      | inl e ↦ rw e (record { observed_ok = q })
      | inr e ↦ elim (Bool-cases (not (same_number f.cwe_id (some c.cwe)))) [
        | inl d ↦ rw (e, d) (record { observed_ok = q })
        | inr d ↦
            rw (e, d)
              (record {
                observed_ok =
                    kept-insert c.name (found (lookup c.name s.observations) ++ f ∷ [])
                      s.observations
                      (rules-append (found (lookup c.name s.observations)) (f ∷ [])
                        (kept-lookup c.name s.observations q) (only_ok f p))
                      q;
              })
      ]
    ]

observe-keeps :
    (root : Codes) (executed : Dict ℕ) (cases : List BenchmarkCase) (fs : List Finding)
    (s : Observed)
    → rules_ok fs ≡ true
    → kept_ok s.observations ≡ true
    → kept_ok (observe root executed cases fs s).observations ≡ true
unfolding observe rules_ok
observe-keeps root executed cases [] s p q = q
observe-keeps root executed cases (f ∷ fs) s p q =
    let (a, b) = both_true (rule_ok f) (rules_ok fs) p in
    observe-keeps root executed cases fs _ b (observe_at-Keeps executed f _ s a q).observed_ok

pub and_true : (a b : Bool) → a ≡ true → b ≡ true → (a && b) ≡ true
and_true a b p q = rw p q

or_left : (a b : Bool) → b ≡ true → (b || a) ≡ true
or_left a b p = rw p refl

or_right : (a b : Bool) → b ≡ true → (a || b) ≡ true
or_right true b p = refl
or_right false b p = p

row_path :
    (c : BenchmarkCase)
    → (str_eq (case_path c) (python_path c.name) || str_eq (case_path c) (java_path c.name)) ≡ true
unfolding case_path
row_path c = elim (Bool-cases (str_eq c.language "java")) [
  | inl e ↦ rw e (or_right _ _ (eq_refl (java_path c.name)))
  | inr e ↦ rw e (or_left _ _ (eq_refl (python_path c.name)))
]

own_set :
    (fs : List Finding)
    → texts_eq
        (sorted_set (map (λ f. f.rule_id) fs))
        (sorted_set (sorted_set (map (λ f. f.rule_id) fs)))
      ≡ true
own_set fs =
    rw (sorted_set-sorted_set (map (λ f. f.rule_id) fs))
      (texts_eq_refl (sorted_set (map (λ f. f.rule_id) fs)))

ids_ok : (fs : List Finding) → rules_ok fs ≡ true → all is_rule_id (map (λ f. f.rule_id) fs) ≡ true
unfolding rules_ok rule_ok
ids_ok [] p = refl
ids_ok (f ∷ fs) p =
    let (a, b) = both_true (is_rule_id f.rule_id) (rules_ok fs) p in and_true _ _ a (ids_ok fs b)

row_rules :
    (fs : List Finding)
    → rules_ok fs ≡ true
    → all is_rule_id (sorted_set (map (λ f. f.rule_id) fs)) ≡ true
row_rules fs p = sorted_set-all is_rule_id (map (λ f. f.rule_id) fs) (ids_ok fs p)

length_ids : (fs : List Finding) → length (map (λ f. f.rule_id) fs) ≡ length fs
length_ids [] = refl
length_ids (f ∷ fs) = ap suc (length_ids fs)

row_length :
    (fs : List Finding) → leb (length (sorted_set (map (λ f. f.rule_id) fs))) (length fs) ≡ true
row_length fs =
    le→leb _ _ (omega (arith, length-sorted_set-le (map (λ f. f.rule_id) fs), length_ids fs))

has_items : (xs : List String) → 0 < length xs → nonempty xs ≡ true
has_items [] h = ground arith
has_items (x ∷ xs) h = refl

nonempty_rules :
    (f : Finding) (fs : List Finding) → nonempty (sorted_set (map (λ g. g.rule_id) (f ∷ fs))) ≡ true
nonempty_rules f fs = has_items _ (sorted_set-nonempty f.rule_id (map (λ g. g.rule_id) fs))

suc_nonzero : (n : ℕ) → not (suc n == 0) ≡ true
suc_nonzero n = ground arith

row_nonempty :
    (fs : List Finding)
    → same_bool (nonempty (sorted_set (map (λ f. f.rule_id) fs))) (not (length fs == 0)) ≡ true
unfolding sorted_set
row_nonempty [] = refl
row_nonempty (f ∷ fs) = rw (nonempty_rules f fs) (suc_nonzero (length fs))

row_identity :
    (reason : Option UnscoredReason) (fs : List Finding) (c : BenchmarkCase)
    → rules_ok fs ≡ true
    → valid_identity (row_of reason fs c) ≡ true
unfolding valid_identity row_of
row_identity reason fs c p = and_true _ _ (row_path c) (
    and_true _ _ (and_true _ _ (own_set fs) (row_rules fs p))
      (and_true _ _ (row_length fs) (row_nonempty fs)))

nothing_hit :
    (b : Bool)
    → ((fits_label b (outcome b false)
          && (fits_label b (outcome b false) && fits_label b (outcome b false)))
        && (same_bool (is_hit (outcome b false)) false
            && (is_hit (outcome b false)
                || not (is_hit (outcome b false) || is_hit (outcome b false)))))
      ≡ true
nothing_hit true = refl
nothing_hit false = refl

something_hit :
    (b x y : Bool)
    → ((fits_label b (outcome b true) && (fits_label b (outcome b x) && fits_label b (outcome b y)))
        && (same_bool (is_hit (outcome b true)) true
            && (is_hit (outcome b true) || not (is_hit (outcome b x) || is_hit (outcome b y)))))
      ≡ true
something_hit true true true = refl
something_hit true true false = refl
something_hit true false true = refl
something_hit true false false = refl
something_hit false true true = refl
something_hit false true false = refl
something_hit false false true = refl
something_hit false false false = refl

row_outcomes :
    (reason : Option UnscoredReason) (fs : List Finding) (c : BenchmarkCase)
    → valid_outcomes (row_of reason fs c) ≡ true
unfolding valid_outcomes row_of sorted_set
row_outcomes (some r) fs c = refl
row_outcomes none [] c = nothing_hit c.positive
row_outcomes none (f ∷ fs) c =
    rw (nonempty_rules f fs)
      (something_hit c.positive (any is_advisory (f ∷ fs)) (any blocks_ci (f ∷ fs)))

rows-valid :
    (complete : Bool) (analyzed : List (Option Codes)) (executed : Dict ℕ) (s : Observed)
    (cs : List BenchmarkCase)
    → kept_ok s.observations ≡ true
    → all validate_identity_and_outcomes (rows complete analyzed executed s cs) ≡ true
unfolding rows validate_identity_and_outcomes
rows-valid complete analyzed executed s [] p = refl
rows-valid complete analyzed executed s (c ∷ cs) p =
    let reason = reason_of complete analyzed executed c in
    let matches = found (lookup c.name s.observations) in
    and_true _ _
      (and_true _ _ (row_identity reason matches c (kept-lookup c.name s.observations p))
        (row_outcomes reason matches c))
      (rows-valid complete analyzed executed s cs p)

start_ok : kept_ok [] ≡ true
unfolding kept_ok
start_ok = refl

module _ (floats : Floats) where
  abbrev cases_of : Result EvaluationError (Evaluation floats) → List SavedCase
  cases_of (ok e) = e.cases
  cases_of (raise x) = []

  written_valid :
      (b d : Bool) (e : Evaluation floats)
      → all validate_identity_and_outcomes e.cases ≡ true
      → all validate_identity_and_outcomes (
          cases_of (
            if b
            then raise EvaluationError.bad_identities
            else (if d then raise EvaluationError.bad_language else ok e)))
        ≡ true
  written_valid true d e p = refl
  written_valid false true e p = refl
  written_valid false false e p = p

  cases-valid :
      (root : Codes) (rule_cwes : Dict (Option ℕ)) (scan : Scan) (cases : List BenchmarkCase)
      → rules_ok scan.findings ≡ true
      → all validate_identity_and_outcomes
          (cases_of (evaluate_cases floats root rule_cwes scan cases))
        ≡ true
  unfolding evaluate_cases report
  cases-valid root rule_cwes scan cases p =
      let executed = executed_rules rule_cwes scan.evaluated_rules [] in
      let s =
        observe root executed cases scan.findings
          (record { observations = []; unscored_findings = [] }) in
      written_valid _ _ _ (
        rows-valid _ (map (relative_path root) scan.analyzed_files) executed s
          (sorted (λ c d. text_before c.name d.name) cases)
          (observe-keeps root executed cases scan.findings _ p start_ok))

  -- Where every finding of a scan is of a rule with an Aegify identifier, each row that evaluate_cases
  -- writes passes the checks of identity and outcomes with which a report is read: the path is that
  -- of the case, the rules are a sorted set of identifiers in step with the number of findings, and
  -- the outcomes fit the label, the rules and the abstention.
  pub evaluate_cases-validate :
      (root : Codes) (rule_cwes : Dict (Option ℕ)) (scan : Scan) (cases : List BenchmarkCase)
      (e : Evaluation floats)
      → rules_ok scan.findings ≡ true
      → evaluate_cases floats root rule_cwes scan cases ≡ ok e
      → all validate_identity_and_outcomes e.cases ≡ true
  evaluate_cases-validate root rule_cwes scan cases e p h =
      subst (λ r. all validate_identity_and_outcomes (cases_of r) ≡ true) h
        (cases-valid root rule_cwes scan cases p)
