-- ===== src/Ir/Routes/Trails.antt =====
-- What a path in a projection of scanner/src/aegify/ir/query.py is in the graph itself.
use aegify.Base.{
  ◌≡◌, refl, sym, ap, ◌∙◌, Bool, true, false, not, ◌&&◌, String, Option, none, some, List, [], ◌∷◌,
  map, arith, str_eq, eq_iff, Member, Member_of_str, str_of_Member, concat_map-out,
  Member_of_sorted, Bool-cases, inl, inr,
}
use aegify.Ir.Dataflow.Definitions.{update, text_before}
use aegify.Ir.Dataflow.Sets.{str_mem-update}
use aegify.Ir.Routes.Projections.{
  GraphEdge, ProgramGraph, DiGraph, IsChain, keep_edges, link, optional_in, has_kind_in, projects,
  project, typed_projection_kinds, modules_for_function, leads_from, targets,
}
use aegify.Ir.Routes.Queries.{excluded}

-- A path on which an edge of the graph that fits leads from each node to the next.
pub data IsTrail (g : ProgramGraph) (Fits : GraphEdge → Type 0) (t : String)
    : String → List String → Type 0 where
  stop : IsTrail g Fits t t (t ∷ [])
  step :
      {s u : String} {path : List String} (e : GraphEdge)
      → Member e g.edges
      → e.source ≡ s
      → e.target ≡ u
      → Fits e
      → IsTrail g Fits t u path
      → IsTrail g Fits t s (s ∷ path)

-- An attribute is there, and is one of the texts.
abbrev pub IsOneOf : Option String → List String → Type 0
IsOneOf o texts = (t : String) × (o ≡ some t) × Member t texts

abbrev pub OfKind : List String → GraphEdge → Type 0
OfKind kinds e = IsOneOf e.kind kinds

-- An edge of one of the overlays, which is not structural.
abbrev pub CarriesFlow : List String → GraphEdge → Type 0
CarriesFlow overlays e = IsOneOf e.overlay overlays × ¬ (IsOneOf e.kind excluded)

optional_in-IsOneOf :
    (o : Option String) (texts : List String) → optional_in o texts ≡ true → IsOneOf o texts
optional_in-IsOneOf none texts h = absurd (cc)
optional_in-IsOneOf (some t) texts h = (t, refl, Member_of_str t texts h)

not-IsOneOf :
    (o : Option String) (texts : List String) → optional_in o texts ≡ false → ¬ (IsOneOf o texts)
not-IsOneOf none texts h (t, e, m) = absurd (cc)
not-IsOneOf (some s) texts h (t, e, m) =
    let same : s ≡ t = ground arith in let found = str_of_Member t texts m in cc (h, found, same)

module _ {A : Type 0} (p : GraphEdge → Bool) (f : GraphEdge → A) where
  -- An edge of the list that passes the test and is mapped to `x`.
  abbrev IsKept : List GraphEdge → A → Type 0
  IsKept es x = (e : GraphEdge) × Member e es × (p e ≡ true) × (f e ≡ x)

  later : (e : GraphEdge) (es : List GraphEdge) (x : A) → IsKept es x → IsKept (e ∷ es) x
  later e es x (d, m, passes, same) = (d, Member.there m, passes, same)

  first-IsKept :
      (e : GraphEdge) (es : List GraphEdge) (x : A)
      → p e ≡ true
      → (Member x (map f (keep_edges p es)) → IsKept es x)
      → Member x (f e ∷ map f (keep_edges p es))
      → IsKept (e ∷ es) x
  first-IsKept e es x passes rest (Member.here q) = (e, Member.here refl, passes, sym q)
  first-IsKept e es x passes rest (Member.there m) = later e es x (rest m)

  keep_edges-IsKept :
      (es : List GraphEdge) (x : A) → Member x (map f (keep_edges p es)) → IsKept es x
  keep_edges-IsKept [] x m = absurd (elim m [ ])
  keep_edges-IsKept (e ∷ es) x m = elim (Bool-cases (p e)) [
    | inl passes ↦ first-IsKept e es x passes (keep_edges-IsKept es x) (rw passes at m)
    | inr fails ↦ later e es x (keep_edges-IsKept es x (rw fails at m))
  ]

module _ (g : ProgramGraph) (p : GraphEdge → Bool) (members : List String)
    (Fits : GraphEdge → Type 0) (fits : (e : GraphEdge) → p e ≡ true → Fits e) where
  abbrev kept : DiGraph
  kept = record { members = members; links = map link (keep_edges p g.edges) }

  chain-IsTrail :
      {t s : String} {path : List String} → IsChain kept t s path → IsTrail g Fits t s path
  chain-IsTrail IsChain.stop = IsTrail.stop
  chain-IsTrail (IsChain.step {s} {u} m c) =
      let (e, k, passes, same) = keep_edges-IsKept p link g.edges (s, u) m in
      IsTrail.step e k (ap (λ l. l.0) same) (ap (λ l. l.1) same) (fits e passes) (chain-IsTrail c)

apart : (a b : Bool) → (not a && b) ≡ true → (a ≡ false) × (b ≡ true)
apart true b h = absurd (cc)
apart false b h = (refl, h)

pub project-IsTrail :
    (g : ProgramGraph) (overlays : List String) (s t : String) (path : List String)
    → IsChain (project g (some overlays) excluded) t s path
    → IsTrail g (CarriesFlow overlays) t s path
unfolding project
project-IsTrail g overlays s t path =
    chain-IsTrail g (projects (some overlays) excluded) _ (CarriesFlow overlays) λ e passes.
      let (kind, overlay) =
        apart (optional_in e.kind excluded) (optional_in e.overlay overlays) passes in
      (optional_in-IsOneOf e.overlay overlays overlay, not-IsOneOf e.kind excluded kind)

pub typed-IsTrail :
    (g : ProgramGraph) (kinds : List String) (s t : String) (path : List String)
    → IsChain (typed_projection_kinds g kinds) t s path
    → IsTrail g (OfKind kinds) t s path
unfolding typed_projection_kinds
typed-IsTrail g kinds s t path =
    chain-IsTrail g (has_kind_in kinds) _ (OfKind kinds)
      λ e passes. optional_in-IsOneOf e.kind kinds passes

-- An edge of a kind between two nodes.
pub record IsJoined (g : ProgramGraph) (kind a b : String) : Type 0 where
  pub edge : GraphEdge
  pub listed : Member edge g.edges
  pub from : edge.source ≡ a
  pub to : edge.target ≡ b
  pub of_kind : edge.kind ≡ some kind

-- A function is declared in a file of the module.
abbrev pub IsInModule : ProgramGraph → String → String → Type 0
IsInModule g function m =
    (file : String) × IsJoined g "declared-in" function file × IsJoined g "member-of-module" file m

leads :
    (a kind : String) (e : GraphEdge)
    → leads_from a kind e ≡ true
    → (e.source ≡ a) × IsOneOf e.kind (kind ∷ [])
leads a kind e passes = elim (Bool-cases (str_eq e.source a)) [
  | inl same ↦
      ((eq_iff e.source a).0 same, optional_in-IsOneOf e.kind (kind ∷ []) (rw same at passes))
  | inr other ↦ absurd (cc (rw other at passes))
]

only : (o : Option String) (t : String) → IsOneOf o (t ∷ []) → o ≡ some t
only o t (k, e, Member.here q) = e ∙ ap some q
only o t (k, e, Member.there m) = absurd (elim m [ ])

targets-IsJoined :
    (g : ProgramGraph) (kind a b : String) → Member b (targets g kind a) → IsJoined g kind a b
targets-IsJoined g kind a b m =
    let (e, held, passes, to) = keep_edges-IsKept (leads_from a kind) (λ e. e.target) g.edges b m in
    let (from, one) = leads a kind e passes in
    record { edge = e; listed = held; from = from; to = to; of_kind = only e.kind kind one }

update-out : (x : String) (xs : List String) → Member x (update [] xs) → Member x xs
update-out x xs m =
    Member_of_str x xs (sym (str_mem-update x [] xs) ∙ str_of_Member x (update [] xs) m)

pub modules-IsInModule :
    (g : ProgramGraph) (function m : String)
    → Member m (modules_for_function g function)
    → IsInModule g function m
unfolding modules_for_function
modules-IsInModule g function m found =
    let files = update [] (targets g "declared-in" function) in
    let (file, in_files, in_file) =
      concat_map-out (targets g "member-of-module") m files
        (update-out m _ (Member_of_sorted text_before _ m found)) in
    (
      file,
      targets-IsJoined g "declared-in" function file (update-out file _ in_files),
      targets-IsJoined g "member-of-module" file m in_file,
    )
