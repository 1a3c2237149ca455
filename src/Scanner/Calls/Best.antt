-- ===== src/Scanner/Calls/Best.antt =====
-- What `_select_overload` of scanner/src/aegify/scanner/call_graph.py selects.
use aegify.Base.{
  ℕ, ◌≤◌, ◌<◌, ◌≡◌, ◌∙◌, ◌↔◌, refl, ap, Bool, true, false, String, Option, none, some, List, [],
  ◌∷◌, ◌++◌, ◌==◌, ==_iff, All, Bool-cases, inl, inr, arith,
}
use aegify.Scanner.Calls.Types.{Characters}
use aegify.Scanner.Calls.Scores.{CallSite, FunctionDef}
use aegify.Scanner.Calls.Graph.{CallGraphBuilder, node_id}
use aegify.Scanner.Calls.Overloads.{
  maximum, scoring, single, winner, select_overload, scored_functions, rivals, decide,
}

abbrev Scored : Type 0
Scored = List (ℕ × FunctionDef)

abbrev Below : ℕ → Scored → Type 0
Below s = All (λ e. e.0 < s)

-- The function has the score there, once, and every other score is lower.
abbrev pub BestAt : ℕ → Scored → FunctionDef → Type 0
BestAt s scored f =
    (before : Scored) × (after : Scored) × (scored ≡ before ++ (s, f) ∷ after)
    × Below s before
    × Below s after

-- The function has a score there, once, and every other score is lower.
abbrev pub UniqueBest : Scored → FunctionDef → Type 0
UniqueBest scored f = (s : ℕ) × BestAt s scored f

maximum-le : (scored : Scored) (best : ℕ) → maximum scored ≤ best → All (λ e. e.0 ≤ best) scored
maximum-le [] best h = tt
maximum-le ((s, f) ∷ scored) best h =
    let rest : maximum scored ≤ best = ground arith in (ground arith, maximum-le scored best rest)

scoring-nil :
    (best : ℕ) (scored : Scored)
    → All (λ e. e.0 ≤ best) scored
    → scoring best scored ≡ []
    → Below best scored
scoring-nil best [] a h = tt
scoring-nil best ((s, f) ∷ scored) (le, a) h = elim (Bool-cases (s == best)) [
  | inl e ↦ let r : f ∷ scoring best scored ≡ [] = rw e at h in absurd (cc)
  | inr e ↦ (ground arith, scoring-nil best scored a (rw e at h))
]

scoring-single :
    (best : ℕ) (scored : Scored) (f : FunctionDef)
    → All (λ e. e.0 ≤ best) scored
    → scoring best scored ≡ f ∷ []
    → BestAt best scored f
scoring-single best [] f a h = absurd (cc)
scoring-single best ((s, g) ∷ scored) f (le, a) h = elim (Bool-cases (s == best)) [
  | inl e ↦
      let r : g ∷ scoring best scored ≡ f ∷ [] = rw e at h in
      let g_f : g ≡ f = cc (r) in
      let none_left : scoring best scored ≡ [] = cc (r) in
      let s_best = (==_iff s best).0 e in
      ([], scored, ap (λ x. x ∷ scored) (cc (s_best, g_f)), tt, scoring-nil best scored a none_left)
  | inr e ↦
      let (before, after, eq, b, c) = scoring-single best scored f a (rw e at h) in
      ((s, g) ∷ before, after, ap (λ x. (s, g) ∷ x) eq, (ground arith, b), c)
]

scoring-Below : (s : ℕ) (scored : Scored) → Below s scored → scoring s scored ≡ []
scoring-Below s [] b = refl
scoring-Below s ((t, g) ∷ scored) (lt, b) =
    let ne : (t == s) ≡ false = ground arith in rw ne (scoring-Below s scored b)

scoring_around :
    (s : ℕ) (f : FunctionDef) (before after : Scored)
    → Below s before
    → Below s after
    → scoring s (before ++ (s, f) ∷ after) ≡ f ∷ []
scoring_around s f [] after b a =
    let eq : (s == s) ≡ true = ground arith in rw (eq, scoring-Below s after a) refl
scoring_around s f ((t, g) ∷ before) after (lt, b) a =
    let ne : (t == s) ≡ false = ground arith in rw ne (scoring_around s f before after b a)

maximum-Below : (s : ℕ) (scored : Scored) → Below s scored → maximum scored ≤ s
maximum-Below s [] b = omega arith
maximum-Below s ((t, g) ∷ scored) (lt, b) = let rest = maximum-Below s scored b in ground arith

maximum_around :
    (s : ℕ) (f : FunctionDef) (before after : Scored)
    → Below s before
    → Below s after
    → maximum (before ++ (s, f) ∷ after) ≡ s
maximum_around s f [] after b a = let rest = maximum-Below s after a in ground arith
maximum_around s f ((t, g) ∷ before) after (lt, b) a =
    let rest = maximum_around s f before after b a in ground arith

single-some : (fs : List FunctionDef) (f : FunctionDef) → single fs ≡ some f → fs ≡ f ∷ []
single-some [] f h = absurd (cc)
single-some (g ∷ []) f h = cc (h)
single-some (g ∷ k ∷ fs) f h = absurd (cc)

winner-UniqueBest :
    (scored : Scored) (f : FunctionDef) → (winner scored ≡ some f) ↔ UniqueBest scored f
unfolding winner
winner-UniqueBest scored f = (
  λ h. (
    maximum scored,
    scoring-single (maximum scored) scored f (maximum-le scored (maximum scored) (omega arith))
        (single-some (scoring (maximum scored) scored) f h),
  ),
  λ u.
      let (s, (before, after, eq, b, a)) = u in
      rw (eq, maximum_around s f before after b a, scoring_around s f before after b a) refl,
)

module _ (characters : Characters) where
  decide-some :
      (call : CallSite) (overloaded : Bool) (o : Option FunctionDef) (g : CallGraphBuilder)
      (n : String)
      → ((decide characters call overloaded o g).0 ≡ some n)
        ↔ ((f : FunctionDef) × (o ≡ some f) × (node_id g f ≡ n))
  decide-some call overloaded none g n = (λ h. absurd (cc), λ h. let (f, e, q) = h in absurd (cc))
  decide-some call overloaded (some f) g n = (
    λ h. (f, refl, cc (h)),
    λ h.
        let (k, e, q) = h in
        let f_k : f ≡ k = cc (e) in ap (λ t. some (node_id g t)) f_k ∙ ap some q,
  )

  -- An overload is selected just where one of the candidates that are left by the repository and the
  -- class has a score, and every other score is lower: its identifier is the answer. With no score,
  -- or two best ones, there is none.
  pub select_overload-best :
      (g : CallGraphBuilder) (call : CallSite) (candidates : List String) (n : String)
      → ((select_overload characters g call candidates).0 ≡ some n) ↔ (
          (f : FunctionDef) × UniqueBest
            (scored_functions characters call (rivals characters g call candidates))
            f
          × (node_id g f ≡ n))
  unfolding select_overload
  select_overload-best g call candidates n =
      let scored = scored_functions characters call (rivals characters g call candidates) in
      let decided = decide-some call _ (winner scored) g n in
      (
        λ h. let (f, e, q) = decided.0 h in (f, (winner-UniqueBest scored f).0 e, q),
        λ h. let (f, u, q) = h in decided.1 (f, (winner-UniqueBest scored f).1 u, q),
      )
