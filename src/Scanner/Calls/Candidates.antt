-- ===== src/Scanner/Calls/Candidates.antt =====
-- Where the function that `_select_overload` of scanner/src/aegify/scanner/call_graph.py selects comes
-- from.
use aegify.Base.{
  unique_from, ℕ, ◌≡◌, ◌∙◌, refl, sym, ap, subst, Bool, true, String, some, List, [], ◌∷◌, ◌++◌,
  ◌||◌, str_eq, str_mem, lookup, Member, here, there, Bool-cases, Option-cases, ◌⊎◌, inl, inr,
}
use aegify.Scanner.Calls.Types.{Characters}
use aegify.Scanner.Calls.Scores.{CallSite, FunctionDef}
use aegify.Scanner.Calls.Graph.{CallGraphBuilder, node_id, caller_function}
use aegify.Scanner.Calls.Overloads.{
  select_overload, scored_functions, overload_score, rivals, eligible, filter, narrowed,
  functions_of, repository_of, same_class, class_of, has_class,
}
use aegify.Scanner.Calls.Best.{select_overload-best}

extended {ℓ} :
    {A : Type ℓ} (x : A) (xs ys : List A) (a : A)
    → (Member a xs → Member a ys)
    → Member a (x ∷ xs)
    → Member a (x ∷ ys)
extended x xs ys a later (here e) = here e
extended x xs ys a later (there m) = there (later m)

scored_first :
    (t : ℕ) (g : FunctionDef) (scored : List (ℕ × FunctionDef)) (fs : List FunctionDef) (s : ℕ)
    (f : FunctionDef)
    → (Member (s, f) scored → Member f fs)
    → Member (s, f) ((t, g) ∷ scored)
    → Member f (g ∷ fs)
scored_first t g scored fs s f later (here e) = here (ap (λ x. x.1) e)
scored_first t g scored fs s f later (there m) = there (later m)

filter-Member :
    (p : FunctionDef → Bool) (fs : List FunctionDef) (f : FunctionDef)
    → Member f (filter p fs)
    → Member f fs
filter-Member p [] f m = m
filter-Member p (g ∷ fs) f m = elim (Bool-cases (p g)) [
  | inl e ↦ extended g (filter p fs) fs f (λ n. filter-Member p fs f n) (rw e at m)
  | inr e ↦ there (filter-Member p fs f (rw e at m))
]

narrowed-cases :
    (matching fs : List FunctionDef) (f : FunctionDef)
    → Member f (narrowed matching fs)
    → Member f matching ⊎ Member f fs
narrowed-cases [] fs f m = inr m
narrowed-cases (g ∷ matching) fs f m = inl m

narrow :
    (p : FunctionDef → Bool) (fs : List FunctionDef) (f : FunctionDef)
    → Member f (narrowed (filter p fs) fs)
    → Member f fs
narrow p fs f m = elim (narrowed-cases (filter p fs) fs f m) [
  | inl n ↦ filter-Member p fs f n
  | inr n ↦ n
]

unique_from-Member :
    (seen ids : List String) (id : String) → Member id (unique_from seen ids) → Member id ids
unique_from-Member seen [] id m = m
unique_from-Member seen (x ∷ ids) id m = elim (Bool-cases (str_mem x seen)) [
  | inl e ↦ there (unique_from-Member seen ids id (rw (e, unique_from) at m))
  | inr e ↦
      extended x (unique_from (x ∷ seen) ids) ids id (λ n. unique_from-Member (x ∷ seen) ids id n)
        (rw (e, unique_from) at m)
]

-- One of the ids names the function, which is in the repository where there is one.
abbrev pub Named : CallGraphBuilder → String → List String → FunctionDef → Type 0
Named g repository ids f =
    (id : String) × Member id ids
    × (lookup id g.function_index ≡ some f)
    × ((str_eq repository "" || str_eq f.repository_id repository) ≡ true)

abbrev in_repository : String → FunctionDef → Bool
in_repository repository f = str_eq repository "" || str_eq f.repository_id repository

under :
    (g : CallGraphBuilder) (repository id : String) (ids : List String) (f : FunctionDef)
    → Named g repository ids f
    → Named g repository (id ∷ ids) f
under g repository id ids f (i, j, l, r) = (i, there j, l, r)

Named-first :
    (g : CallGraphBuilder) (repository id : String) (ids : List String) (k f : FunctionDef)
    → lookup id g.function_index ≡ some k
    → in_repository repository k ≡ true
    → (Member f (functions_of g repository ids) → Named g repository ids f)
    → Member f (k ∷ functions_of g repository ids)
    → Named g repository (id ∷ ids) f
Named-first g repository id ids k f e ok later (here q) =
    (id, here refl, e ∙ ap some (sym q), subst (λ t. in_repository repository t ≡ true) (sym q) ok)
Named-first g repository id ids k f e ok later (there n) = under g repository id ids f (later n)

functions_of-Named :
    (g : CallGraphBuilder) (repository : String) (ids : List String) (f : FunctionDef)
    → Member f (functions_of g repository ids)
    → Named g repository ids f
functions_of-Named g repository [] f m = elim m [ ]
functions_of-Named g repository (id ∷ ids) f m = elim (Option-cases (lookup id g.function_index)) [
  | inl e ↦
      under g repository id ids f
        (functions_of-Named g repository ids f (rw (e, functions_of) at m))
  | inr (k, e) ↦ elim (Bool-cases (in_repository repository k)) [
    | inl ok ↦
        Named-first g repository id ids k f e ok (λ n. functions_of-Named g repository ids f n)
          (rw (e, ok, functions_of) at m)
    | inr bad ↦
        under g repository id ids f
          (functions_of-Named g repository ids f (rw (e, bad, functions_of) at m))
  ]
]

around-Member :
    (s : ℕ) (f : FunctionDef) (before after : List (ℕ × FunctionDef))
    → Member (s, f) (before ++ (s, f) ∷ after)
around-Member s f [] after = here refl
around-Member s f (x ∷ before) after = there (around-Member s f before after)

module _ (characters : Characters) where
  scored_functions-Member :
      (call : CallSite) (fs : List FunctionDef) (s : ℕ) (f : FunctionDef)
      → Member (s, f) (scored_functions characters call fs)
      → Member f fs
  scored_functions-Member call [] s f m = elim m [ ]
  scored_functions-Member call (g ∷ fs) s f m =
      elim (Option-cases (overload_score characters call g)) [
        | inl e ↦ there (scored_functions-Member call fs s f (rw (e, scored_functions) at m))
        | inr (t, e) ↦
            scored_first t g (scored_functions characters call fs) fs s f
              (λ n. scored_functions-Member call fs s f n) (rw (e, scored_functions) at m)
      ]

  rivals-Member :
      (g : CallGraphBuilder) (call : CallSite) (candidates : List String) (f : FunctionDef)
      → Member f (rivals characters g call candidates)
      → Member f (eligible characters g call candidates)
  rivals-Member g call candidates f m =
      let caller = caller_function g call in
      let fs = eligible characters g call candidates in
      elim (Bool-cases (str_eq call.receiver_type "")) [
        | inl e ↦ narrow (same_class characters (class_of characters caller)) fs f (rw e at m)
        | inr e ↦
            narrow (λ k. has_class characters call.receiver_type k.class_name) fs f (rw e at m)
      ]

  -- The identifier that is selected is that of a function that one of the candidates names in the
  -- index, and which is in the repository of the call, or else of its caller, where there is one.
  pub select_overload-Named :
      (g : CallGraphBuilder) (call : CallSite) (candidates : List String) (n : String)
      → (select_overload characters g call candidates).0 ≡ some n
      → (f : FunctionDef) × (node_id g f ≡ n)
        × Named g (repository_of call (caller_function g call)) candidates f
  select_overload-Named g call candidates n h =
      let (f, (s, (before, after, eq, b, a)), q) =
        (select_overload-best characters g call candidates n).0 h in
      let scored = subst (Member (s, f)) (sym eq) (around-Member s f before after) in
      let rival = scored_functions-Member call (rivals characters g call candidates) s f scored in
      let (id, m, l, r) =
        functions_of-Named g (repository_of call (caller_function g call))
          (unique_from [] candidates) f (rivals-Member g call candidates f rival) in
      (f, q, (id, unique_from-Member [] candidates id m, l, r))
