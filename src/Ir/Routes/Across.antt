-- ===== src/Ir/Routes/Across.antt =====
-- What `cross_repository_path` of scanner/src/aegify/ir/query.py returns.
use aegify.Base.{
  ◌≡◌, ◌≢◌, refl, subst, Bool, true, false, not, ◌&&◌, String, Option, none, some, List, [], ◌∷◌,
  ◌++◌, if◌then◌else◌, inl, inr, All, arith, str_eq, eq_iff, Bool-cases,
}
use aegify.Ir.Routes.Projections.{
  ProgramGraph, DiGraph, Finder, IsFinder, IsChain, project, typed_projection_kinds,
  modules_for_function, repository_id,
}
use aegify.Ir.Routes.Queries.{
  excluded, precise_overlays, find_path, path_or_empty, between, or_else, modules, across, within,
  cross_repository_path, repository_node, artifact_kinds, repository_kinds,
}
use aegify.Ir.Routes.Trails.{
  IsTrail, CarriesFlow, OfKind, IsInModule, project-IsTrail, typed-IsTrail, modules-IsInModule,
}
use aegify.Ir.Routes.Links.{IsLink, Apart, nx-IsLink, first-IsLink, best-IsLink}
use aegify.Ir.Routes.Chains.{found-IsChain, IsPair, pairs-IsPair}

-- The two functions are of different repositories, as far as that of the source is known.
pub record AreApart (g : ProgramGraph) (source sink : String) : Type 0 where
  pub known : repository_id g source ≢ ""
  pub differ : repository_id g source ≢ repository_id g sink

-- What stands in for a precise path: the source and the sink round a path between modules of theirs, over
-- artifact dependencies, or between their repositories, over their artifact dependencies or their
-- declared ones; and where they are not apart, between two modules, over module dependencies.
pub data IsCoarse (g : ProgramGraph) (source sink : String) : List String → Type 0 where
  no_route : IsCoarse g source sink []
  over_artifacts :
      {s t : String} {middle : List String}
      → AreApart g source sink
      → IsInModule g source s
      → IsInModule g sink t
      → IsTrail g (OfKind artifact_kinds) t s middle
      → IsCoarse g source sink (source ∷ middle ++ sink ∷ [])
  over_repositories :
      {middle : List String}
      → AreApart g source sink
      → IsTrail g
          (OfKind repository_kinds)
          (repository_node (repository_id g sink))
          (repository_node (repository_id g source))
          middle
      → IsCoarse g source sink (source ∷ middle ++ sink ∷ [])
  over_dependencies :
      {middle : List String}
      → AreApart g source sink
      → IsTrail g
          (OfKind ("depends-on" ∷ []))
          (repository_node (repository_id g sink))
          (repository_node (repository_id g source))
          middle
      → IsCoarse g source sink (source ∷ middle ++ sink ∷ [])
  over_modules :
      {s t : String} {middle : List String}
      → ¬ AreApart g source sink
      → IsInModule g source s
      → IsInModule g sink t
      → s ≢ t
      → IsTrail g (OfKind ("module-dependency" ∷ [])) t s middle
      → IsCoarse g source sink (source ∷ middle ++ sink ∷ [])

-- A precise path, or where the search finds none, what stands in for it.
pub data IsRoute (shortest : Finder) (g : ProgramGraph) (source sink : String)
    : List String → Type 0 where
  precise :
      {path : List String}
      → IsTrail g (CarriesFlow precise_overlays) sink source path
      → IsRoute shortest g source sink path
  last_resort :
      {path : List String}
      → find_path shortest (project g (some precise_overlays) excluded) source sink ≡ none
      → IsCoarse g source sink path
      → IsRoute shortest g source sink path

module _ (shortest : Finder) (finds : IsFinder shortest) (g : ProgramGraph)
    (source sink : String) where
  or_else-IsCoarse :
      (p q : List String)
      → IsCoarse g source sink p
      → IsCoarse g source sink q
      → IsCoarse g source sink (or_else shortest p q)
  or_else-IsCoarse [] q a b = b
  or_else-IsCoarse (x ∷ xs) q a b = a

  between-IsCoarse :
      (P : String → String → Type 0) (kinds path : List String)
      → IsLink P (typed_projection_kinds g kinds) path
      → ((s t : String)
          → P s t
          → IsTrail g (OfKind kinds) t s path
          → IsCoarse g source sink (source ∷ path ++ sink ∷ []))
      → IsCoarse g source sink (between shortest source path sink)
  unfolding IsLink
  between-IsCoarse P kinds [] h f = IsCoarse.no_route
  between-IsCoarse P kinds (x ∷ xs) (inl e) f = absurd (cc)
  between-IsCoarse P kinds (x ∷ xs) (inr (s, t, p, c)) f =
      f s t p (typed-IsTrail g kinds s t (x ∷ xs) c)

  -- Modules of the source and of the sink.
  abbrev Modules : String → String → Type 0
  Modules s t = IsInModule g source s × IsInModule g sink t

  All-map :
      {A : Type 0} (P Q : A → Type 0) → ((x : A) → P x → Q x) → (xs : List A) → All P xs → All Q xs
  All-map P Q f [] ps = tt
  All-map P Q f (x ∷ xs) ps = (f x ps.0, All-map P Q f xs ps.1)

  modules-Modules : All (λ p. Modules p.0 p.1) (modules shortest g source sink)
  unfolding IsPair
  modules-Modules =
      All-map (IsPair (modules_for_function g source) (modules_for_function g sink)) _
        (λ p m. (modules-IsInModule g source p.0 m.0, modules-IsInModule g sink p.1 m.1)) _
        (pairs-IsPair shortest (modules_for_function g source) (modules_for_function g sink))

  abbrev a : String
  a = repository_node (repository_id g source)

  abbrev b : String
  b = repository_node (repository_id g sink)

  -- The two repositories.
  abbrev Repositories : String → String → Type 0
  Repositories s t = (s ≡ a) × (t ≡ b)

  linked :
      (kinds path : List String)
      → (IsTrail g (OfKind kinds) b a path → IsCoarse g source sink (source ∷ path ++ sink ∷ []))
      → IsLink Repositories (typed_projection_kinds g kinds) path
      → IsCoarse g source sink (between shortest source path sink)
  linked kinds path over l = between-IsCoarse Repositories kinds path l λ s t p c. over (
      subst (λ u. IsTrail g (OfKind kinds) u a path) p.1
        (subst (λ u. IsTrail g (OfKind kinds) t u path) p.0 c))

  across-IsCoarse : AreApart g source sink → IsCoarse g source sink (across shortest g source sink)
  unfolding across
  across-IsCoarse apart =
      or_else-IsCoarse _ _
        (between-IsCoarse Modules artifact_kinds _
          (first-IsLink shortest finds Modules _ _ modules-Modules)
          (λ s t p c. IsCoarse.over_artifacts apart p.0 p.1 c))
        (or_else-IsCoarse _ _
          (linked repository_kinds _ (λ c. IsCoarse.over_repositories apart c)
            (nx-IsLink shortest finds Repositories _ a b (refl, refl)))
          (linked ("depends-on" ∷ []) _ (λ c. IsCoarse.over_dependencies apart c)
            (nx-IsLink shortest finds Repositories _ a b (refl, refl))))

  within-IsCoarse :
      ¬ AreApart g source sink → IsCoarse g source sink (within shortest g source sink)
  unfolding within IsLink
  within-IsCoarse together =
      between-IsCoarse (Apart Modules) ("module-dependency" ∷ []) _
        (best-IsLink shortest finds Modules _ (modules shortest g source sink) [] modules-Modules
          (inl refl))
        (λ s t p c. IsCoarse.over_modules together p.0.0 p.0.1 p.1 c)

  abbrev apart : Bool
  apart =
      not (str_eq (repository_id g source) "")
      && not (str_eq (repository_id g source) (repository_id g sink))

  apart-AreApart : apart ≡ true → AreApart g source sink
  apart-AreApart h = record {
    known = λ e. ground (arith, eq_iff (repository_id g source) "");
    differ = λ e. ground (arith, eq_iff (repository_id g source) (repository_id g sink));
  }

  not-AreApart : apart ≡ false → ¬ AreApart g source sink
  not-AreApart h r =
      let p = eq_iff (repository_id g source) "" in
      let q = eq_iff (repository_id g source) (repository_id g sink) in
      elim (Bool-cases (str_eq (repository_id g source) "")) [
        | inl e ↦ r.known (p.0 e)
        | inr e ↦ r.differ (q.0 (ground arith))
      ]

  rest-IsCoarse :
      IsCoarse g source sink
        (if apart then across shortest g source sink else within shortest g source sink)
  rest-IsCoarse = elim (Bool-cases apart) [
    | inl e ↦ rw e (across-IsCoarse (apart-AreApart e))
    | inr e ↦ rw e (within-IsCoarse (not-AreApart e))
  ]

  IsChain-ne-empty :
      {d : DiGraph} {t s : String} {path : List String} → IsChain d t s path → path ≢ []
  IsChain-ne-empty IsChain.stop e = cc (e)
  IsChain-ne-empty (IsChain.step m c) e = cc (e)

  precise-IsRoute :
      (o : Option (List String)) (rest : List String)
      → find_path shortest (project g (some precise_overlays) excluded) source sink ≡ o
      → IsCoarse g source sink rest
      → IsRoute shortest g source sink (or_else shortest (path_or_empty o) rest)
  precise-IsRoute none rest h c = IsRoute.last_resort h c
  precise-IsRoute (some []) rest h c =
      absurd (IsChain-ne-empty (found-IsChain shortest finds _ source sink [] h) refl)
  precise-IsRoute (some (x ∷ xs)) rest h c = IsRoute.precise (
      project-IsTrail g precise_overlays source sink (x ∷ xs)
        (found-IsChain shortest finds _ source sink (x ∷ xs) h))

-- Where networkx's search returns paths of the graph that it searches, `cross_repository_path` returns
-- a path of the graph from the source to the sink over edges of the precise overlays and of no
-- structural kind; or the search finds none, and it returns nothing or the source and the sink round
-- such a path, of edges of one kind: where the source's repository is known and not the sink's,
-- between modules of the two over artifact dependencies, or between the two repositories over
-- artifact dependencies or declared ones; and else between different modules of the two over module
-- dependencies.
pub cross_repository_path-IsRoute :
    (shortest : Finder) (g : ProgramGraph) (source sink : String)
    → IsFinder shortest
    → IsRoute shortest g source sink (cross_repository_path shortest g source sink)
unfolding cross_repository_path
cross_repository_path-IsRoute shortest g source sink finds =
    precise-IsRoute shortest finds g source sink _ _ refl
      (rest-IsCoarse shortest finds g source sink)
