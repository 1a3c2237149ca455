-- ===== src/Ir/Routes/Chains.antt =====
-- What the path queries of scanner/src/aegify/ir/query.py return.
use aegify.Base.{
  ℤ, pos, ℕ, suc, ◌≤◌, ◌≡◌, refl, sym, subst, Bool, true, false, ◌&&◌, String, Option, none, some,
  List, [], ◌∷◌, ◌++◌, map, arith, All, All-append, length, length-append, leb, if◌then◌else◌,
  str_mem, sorted, Member, Member_of_sorted, concat_map-out, Bool-cases, inl, inr,
}
use aegify.Ir.Dataflow.Definitions.{text_before}
use aegify.Ir.Routes.Projections.{ProgramGraph, DiGraph, Finder, IsFinder, IsChain, project}
use aegify.Ir.Routes.Trails.{IsTrail, CarriesFlow, project-IsTrail}
use aegify.Ir.Routes.Queries.{
  excluded, flow_overlays, find_path, add_path, is_found, reached, collect, pairs_of,
  source_to_sink_paths,
}

-- A path of the query: from a source to a sink, over edges of the graph that are in an overlay of the
-- query and are not structural.
pub record IsFlowPath (g : ProgramGraph) (sources sinks : List String) (path : List String)
    : Type 0 where
  pub source : String
  pub sink : String
  pub from : Member source sources
  pub to : Member sink sinks
  pub trail : IsTrail g (CarriesFlow flow_overlays) sink source path

module _ (shortest : Finder) (finds : IsFinder shortest) (d : DiGraph) where
  pub found-IsChain :
      (s t : String) (path : List String)
      → find_path shortest d s t ≡ some path
      → IsChain d t s path
  unfolding IsFinder
  found-IsChain s t path h = elim (Bool-cases (str_mem s d.members && str_mem t d.members)) [
    | inl e ↦ finds d s t path (rw e at h)
    | inr e ↦ absurd (ground arith)
  ]

All-of_members :
    {A : Type 0} (P : A → Type 0) (xs : List A) → ((a : A) → Member a xs → P a) → All P xs
All-of_members P [] h = tt
All-of_members P (x ∷ xs) h =
    (h x (Member.here refl), All-of_members P xs (λ a m. h a (Member.there m)))

map_second :
    (x : String) (ys : List String) (p : String × String)
    → Member p (map (λ y. (x, y)) ys)
    → (y : String) × Member y ys × (p ≡ (x, y))
map_second x [] p m = absurd (elim m [ ])
map_second x (y ∷ ys) p (Member.here e) = (y, Member.here refl, e)
map_second x (y ∷ ys) p (Member.there m) =
    let (z, k, e) = map_second x ys p m in (z, Member.there k, e)

-- The first is in the one list, the second in the other.
unfoldable pub IsPair : List String → List String → String × String → Type 0
IsPair xs ys (a, b) = Member a xs × Member b ys

pub pairs-IsPair :
    (shortest : Finder) (xs ys : List String) → All (IsPair xs ys) (pairs_of shortest xs ys)
unfolding IsPair
pairs-IsPair shortest xs ys = All-of_members (IsPair xs ys) _ λ p m.
    let (x, mx, in_x) = concat_map-out (λ x. map (λ y. (x, y)) ys) p xs m in
    let (y, my, e) = map_second x ys p in_x in subst (IsPair xs ys) (sym e) (mx, my)

module _ (shortest : Finder) (finds : IsFinder shortest) (g : ProgramGraph)
    (sources sinks : List String) where
  abbrev d : DiGraph
  d = project g (some flow_overlays) excluded

  added :
      (a b : String) (o : Option (List String)) (paths : List (List String))
      → find_path shortest d a b ≡ o
      → IsPair (sorted text_before sources) (sorted text_before sinks) (a, b)
      → All (IsFlowPath g sources sinks) paths
      → All (IsFlowPath g sources sinks) (add_path shortest o paths)
  unfolding IsPair
  added a b none paths h p all = all
  added a b (some path) paths h p all =
      All-append (IsFlowPath g sources sinks) paths (path ∷ []) all (
        record {
          source = a;
          sink = b;
          from = Member_of_sorted text_before sources a p.0;
          to = Member_of_sorted text_before sinks b p.1;
          trail =
              project-IsTrail g flow_overlays a b path (found-IsChain shortest finds d a b path h);
        },
        tt,
      )

  either :
      (t : Bool) (x y : List (List String))
      → All (IsFlowPath g sources sinks) x
      → All (IsFlowPath g sources sinks) y
      → All (IsFlowPath g sources sinks) (if t then x else y)
  either true x y p q = p
  either false x y p q = q

  collected :
      (max_paths : ℤ) (pairs : List (String × String)) (paths : List (List String))
      → All (IsPair (sorted text_before sources) (sorted text_before sinks)) pairs
      → All (IsFlowPath g sources sinks) paths
      → All (IsFlowPath g sources sinks) (collect shortest d max_paths pairs paths)
  unfolding collect
  collected max_paths [] paths ps all = all
  collected max_paths ((a, b) ∷ pairs) paths ps all =
      let more = added a b (find_path shortest d a b) paths refl ps.0 all in
      either _ _ _ more
        (collected max_paths pairs (add_path shortest (find_path shortest d a b) paths) ps.1 more)

module _ (shortest : Finder) where
  bounded_step :
      (n : ℕ) (o : Option (List String)) (paths rest : List (List String))
      → suc (length paths) ≤ suc n
      → (suc (length (add_path shortest o paths)) ≤ suc n → length rest ≤ suc n)
      → length (
          if is_found shortest o && reached shortest (pos (suc n)) (add_path shortest o paths)
          then add_path shortest o paths
          else rest)
        ≤ suc n
  bounded_step n none paths rest h f = f h
  bounded_step n (some path) paths rest h f =
      elim (Bool-cases (leb (suc n) (length (paths ++ path ∷ [])))) [
        | inl e ↦ rw e (omega (arith, length-append paths (path ∷ []), h))
        | inr e ↦ rw e (f (ground arith))
      ]

  collect-length :
      (d : DiGraph) (n : ℕ) (pairs : List (String × String)) (paths : List (List String))
      → suc (length paths) ≤ suc n
      → length (collect shortest d (pos (suc n)) pairs paths) ≤ suc n
  unfolding collect
  collect-length d n [] paths h = omega arith
  collect-length d n ((a, b) ∷ pairs) paths h =
      bounded_step n (find_path shortest d a b) paths _ h
        (collect-length d n pairs (add_path shortest (find_path shortest d a b) paths))

-- Where networkx's search returns paths of the graph that it searches, and `max_paths` is positive,
-- every path of `source_to_sink_paths` leads from a source to a sink, and between any two of its
-- neighbours the graph has an edge that is of one of the overlays that carry flow and is not of a
-- structural kind; and there are at most `max_paths` of them.
pub source_to_sink_paths-IsFlowPath :
    (shortest : Finder) (g : ProgramGraph) (sources sinks : List String) (n : ℕ)
    → IsFinder shortest
    → All (IsFlowPath g sources sinks) (source_to_sink_paths shortest g sources sinks (pos (suc n)))
      × (length (source_to_sink_paths shortest g sources sinks (pos (suc n))) ≤ suc n)
unfolding source_to_sink_paths
source_to_sink_paths-IsFlowPath shortest g sources sinks n finds = (
  collected shortest finds g sources sinks (pos (suc n)) _ []
      (pairs-IsPair shortest (sorted text_before sources) (sorted text_before sinks)) tt,
  collect-length shortest (project g (some flow_overlays) excluded) n _ [] (omega arith),
)
