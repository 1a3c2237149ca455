-- ===== src/Scanner/Calls/Resolve.antt =====
-- `_resolve_callee` of scanner/src/aegify/scanner/call_graph.py.
use aegify.Base.{
  Member, here, there, ◌&&◌, ◌≡◌, ◌∙◌, refl, ap, Bool, true, false, String, Option, none, some,
  List, [], ◌∷◌, ◌++◌, ◌==◌, Codes, codes, any, if◌then◌else◌, list_beq, str_eq, lookup, Bool-cases,
  inl, inr,
}
use Prim.Native.String.{◌++◌ as text_append}
use aegify.Scanner.Calls.Types.{Characters}
use aegify.Scanner.Calls.Scores.{CallSite, FunctionDef}
use aegify.Scanner.Calls.Graph.{CallGraphBuilder, named, or_nil, node_id, caller_function}
use aegify.Scanner.Calls.Overloads.{select_overload, repository_of}
use aegify.Scanner.Calls.Candidates.{Named, select_overload-Named}

abbrev receiver_of : CallSite → Option String
receiver_of call = elim call.receiver [
  | none ↦ none
  | some r ↦ if str_eq r "" then none else some r
]

abbrev qualified : CallSite → Option String → String
qualified call none = call.callee
qualified call (some r) = text_append r (text_append "." call.callee)

-- `text.split(".", 1)[0]`
abbrev before_dot : Codes → Codes
before_dot [] = []
before_dot (c ∷ cs) = let rest = before_dot cs in if c == b'.' then [] else c ∷ rest

abbrev binding : CallSite → Option String → Codes
binding call none = before_dot (codes call.callee)
binding call (some r) = before_dot (codes r)

abbrev is_declared : List (String × String) → String → Codes → Bool
is_declared imports file name = any (λ d. str_eq d.0 file && list_beq ◌==◌ (codes d.1) name) imports

abbrev is_nil : List String → Bool
is_nil [] = true
is_nil (x ∷ xs) = false

abbrev imported : CallGraphBuilder → CallSite → List String
imported g call = named g.import_map call.file_path (qualified call (receiver_of call))

-- The callee is of an import that is declared and not in the index.
unfoldable pub is_unknown_import : CallGraphBuilder → CallSite → Bool
is_unknown_import g call =
    is_declared g.declared_imports call.file_path (binding call (receiver_of call))
    && is_nil (imported g call)

abbrev local_qualified : CallGraphBuilder → CallSite → Option String → List String
local_qualified g call none = []
local_qualified g call (some r) =
    named g.file_function_index call.file_path (qualified call (some r))

abbrev append_tier : List (List String) → List String → List (List String)
append_tier tiers [] = tiers
append_tier tiers (x ∷ xs) = tiers ++ (x ∷ xs) ∷ []

-- The imported functions, those of the file by the qualified and by the plain name, those of the name,
-- and those whose name ends so.
unfoldable pub sources : CallGraphBuilder → CallSite → List (List String)
sources g call =
    imported g call
    ∷ local_qualified g call (receiver_of call)
    ∷ named g.file_function_index call.file_path call.callee
    ∷ or_nil (lookup call.callee g.name_index)
    ∷ or_nil (lookup call.callee g.suffix_index)
    ∷ []

abbrev candidate_tiers : List (List String) → List (List String) → List (List String)
candidate_tiers tiers [] = tiers
candidate_tiers tiers (ids ∷ rest) = candidate_tiers (append_tier tiers ids) rest

first_kept :
    (t : List String) (tiers lists : List (List String))
    → (rest : List (List String)) × (candidate_tiers (t ∷ tiers) lists ≡ t ∷ rest)
first_kept t tiers [] = (tiers, refl)
first_kept t tiers ([] ∷ lists) = first_kept t tiers lists
first_kept t tiers ((x ∷ xs) ∷ lists) = first_kept t (tiers ++ (x ∷ xs) ∷ []) lists

module _ (characters : Characters) where
  -- The loop over the tiers.
  unfoldable pub resolve_in :
      CallSite → List (List String) → CallGraphBuilder → Option String × CallGraphBuilder
  resolve_in call [] g = (none, g)
  resolve_in call (candidates ∷ tiers) g =
      let selected = select_overload characters g call candidates in
      let rest = resolve_in call tiers selected.1 in
      elim selected.0 [
        | some id ↦ (some id, selected.1)
        | none ↦ if is_nil candidates then rest else (none, selected.1)
      ]

  -- `_resolve_callee`
  unfoldable pub resolve_callee : CallGraphBuilder → CallSite → Option String × CallGraphBuilder
  unfolding resolve_in
  resolve_callee g call =
      if is_unknown_import g call
      then (none, g)
      else resolve_in call (candidate_tiers [] (sources g call)) g

  -- The selection from the first of the lists that has an id.
  abbrev pub from_first :
      CallGraphBuilder → CallSite → List (List String) → Option String × CallGraphBuilder
  from_first g call [] = (none, g)
  from_first g call ([] ∷ lists) = from_first g call lists
  from_first g call ((x ∷ xs) ∷ lists) = select_overload characters g call (x ∷ xs)

  resolve_in-head :
      (g : CallGraphBuilder) (call : CallSite) (x : String) (xs : List String)
      (tiers : List (List String))
      → resolve_in call ((x ∷ xs) ∷ tiers) g ≡ select_overload characters g call (x ∷ xs)
  unfolding resolve_in
  resolve_in-head g call x xs tiers = same_answer (select_overload characters g call (x ∷ xs))
    where
      same_answer :
          (selected : Option String × CallGraphBuilder)
          → (elim selected.0 [ some id ↦ (some id, selected.1) | none ↦ (none, selected.1) ])
            ≡ selected
      same_answer (none, h) = refl
      same_answer (some id, h) = refl

  resolve_in-tiers :
      (g : CallGraphBuilder) (call : CallSite) (lists : List (List String))
      → resolve_in call (candidate_tiers [] lists) g ≡ from_first g call lists
  unfolding resolve_in
  resolve_in-tiers g call [] = refl
  resolve_in-tiers g call ([] ∷ lists) = resolve_in-tiers g call lists
  resolve_in-tiers g call ((x ∷ xs) ∷ lists) =
      let (rest, e) = first_kept (x ∷ xs) [] lists in
      ap (λ t. resolve_in call t g) e ∙ resolve_in-head g call x xs rest

  -- The callee of a call is what the overload selection answers on the first of the five lists of
  -- candidates that is not empty, also where it answers none: no later list is asked. There is none
  -- where all are empty, and where the name is imported and the import leads to no function.
  pub resolve_callee-first :
      (g : CallGraphBuilder) (call : CallSite)
      → resolve_callee g call
        ≡ (if is_unknown_import g call then (none, g) else from_first g call (sources g call))
  unfolding resolve_callee
  resolve_callee-first g call = elim (Bool-cases (is_unknown_import g call)) [
    | inl e ↦ rw e refl
    | inr e ↦ rw e (resolve_in-tiers g call (sources g call))
  ]

  -- One of the lists has a candidate for the identifier.
  abbrev pub Found : CallGraphBuilder → CallSite → String → List (List String) → Type 0
  Found g call n lists =
      (ids : List String) × Member ids lists
      × (f : FunctionDef) × (node_id g f ≡ n)
      × Named g (repository_of call (caller_function g call)) ids f

  from_first-Found :
      (g : CallGraphBuilder) (call : CallSite) (n : String) (lists : List (List String))
      → (from_first g call lists).0 ≡ some n
      → Found g call n lists
  from_first-Found g call n [] h = absurd (cc)
  from_first-Found g call n ([] ∷ lists) h =
      let (ids, m, f, q, l) = from_first-Found g call n lists h in (ids, there m, f, q, l)
  from_first-Found g call n ((x ∷ xs) ∷ lists) h =
      let (f, q, l) = select_overload-Named characters g call (x ∷ xs) n h in
      (x ∷ xs, here refl, f, q, l)

  -- A callee that is resolved is a function of the index that one of the five lists of candidates
  -- names, in the repository of the call, or else of its caller, where there is one; and the call is
  -- not of an import that leads to no function.
  pub resolve_callee-Found :
      (g : CallGraphBuilder) (call : CallSite) (n : String)
      → (resolve_callee g call).0 ≡ some n
      → (is_unknown_import g call ≡ false) × Found g call n (sources g call)
  resolve_callee-Found g call n h = elim (Bool-cases (is_unknown_import g call)) [
    | inl e ↦ let r : none ≡ some n = rw (resolve_callee-first g call, e) at h in absurd (cc)
    | inr e ↦
        (e, from_first-Found g call n (sources g call) (rw (resolve_callee-first g call, e) at h))
  ]
