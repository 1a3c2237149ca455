-- ===== src/Ir/Routes/Queries.antt =====
-- `shortest_path`, `source_to_sink_paths` and `cross_repository_path` of
-- scanner/src/aegify/ir/query.py.
use Prim.Native.String.{◌++◌ as ◌<>◌}
use aegify.Base.{
  ℤ, pos, negsuc, Bool, true, false, not, ◌&&◌, ◌||◌, String, Option, none, some, List, [], ◌∷◌,
  ◌++◌, map, concat_map, length, leb, ltb, if◌then◌else◌, str_eq, str_mem, sorted,
}
use aegify.Ir.Dataflow.Definitions.{text_before}
use aegify.Ir.Routes.Projections.{
  ProgramGraph, DiGraph, Finder, project, typed_projection_kinds, modules_for_function,
  repository_id,
}

abbrev pub structural_kinds : List String
structural_kinds =
    "contains-file" ∷ "contains-function" ∷ "declared-in" ∷ "declares" ∷ "defined-in" ∷ "definition"
    ∷ "member-of-module" ∷ "member-of-repository" ∷ "reference" ∷ "defines-package"
    ∷ "depends-on-package" ∷ "package-version-conflict" ∷ "publishes-jvm-artifact"
    ∷ "repository-publishes-jvm-artifact" ∷ "depends-on-jvm-artifact"
    ∷ "repository-depends-on-jvm-artifact" ∷ "resolved-jvm-provider"
    ∷ "resolved-jvm-provider-repository" ∷ "jvm-version-conflict" ∷ []

abbrev pub excluded : List String
excluded = "module-dependency" ∷ "depends-on" ∷ structural_kinds

abbrev pub flow_overlays : List String
flow_overlays =
    "call" ∷ "dfg" ∷ "dtg" ∷ "framework" ∷ "icfg" ∷ "points-to" ∷ "semantic" ∷ "ssa" ∷ "taint" ∷ []

abbrev pub precise_overlays : List String
precise_overlays = "attack-surface" ∷ flow_overlays

abbrev pub path_or_empty : Option (List String) → List String
path_or_empty none = []
path_or_empty (some path) = path

abbrev pub repository_node : String → String
repository_node r = "repository:" <> r

abbrev pub artifact_kinds : List String
artifact_kinds = "depends-on-jvm-artifact" ∷ "resolved-jvm-provider" ∷ []

abbrev pub repository_kinds : List String
repository_kinds = "repository-depends-on-jvm-artifact" ∷ "resolved-jvm-provider-repository" ∷ []

module _ (shortest : Finder) where
  -- Both ends are in the projection, and there is a path.
  abbrev pub find_path : DiGraph → String → String → Option (List String)
  find_path d s t = if str_mem s d.members && str_mem t d.members then shortest d s t else none

  -- `_nx_shortest_path`
  abbrev pub nx_shortest_path : DiGraph → String → String → List String
  nx_shortest_path d s t = path_or_empty (find_path d s t)

  unfoldable pub shortest_path : ProgramGraph → String → String → Option (List String) → List String
  shortest_path g source target overlays = nx_shortest_path (project g overlays []) source target

  abbrev pub reached : ℤ → List (List String) → Bool
  reached (pos n) paths = leb n (length paths)
  reached (negsuc n) paths = true

  abbrev pub add_path : Option (List String) → List (List String) → List (List String)
  add_path none paths = paths
  add_path (some path) paths = paths ++ path ∷ []

  abbrev pub is_found : Option (List String) → Bool
  is_found none = false
  is_found (some path) = true

  -- The two loops, over the pairs of a source and a sink in their order. The limit is tested after
  -- a path was added.
  unfoldable pub collect :
      DiGraph → ℤ → List (String × String) → List (List String) → List (List String)
  collect d max_paths [] paths = paths
  collect d max_paths ((a, b) ∷ pairs) paths =
      let more = add_path (find_path d a b) paths in
      let rest = collect d max_paths pairs more in
      if is_found (find_path d a b) && reached max_paths more then more else rest

  abbrev pub pairs_of : List String → List String → List (String × String)
  pairs_of xs ys = concat_map (λ x. map (λ y. (x, y)) ys) xs

  unfoldable pub source_to_sink_paths :
      ProgramGraph → List String → List String → ℤ → List (List String)
  source_to_sink_paths g sources sinks max_paths =
      collect (project g (some flow_overlays) excluded) max_paths
        (pairs_of (sorted text_before sources) (sorted text_before sinks)) []

  abbrev pub is_empty : List String → Bool
  is_empty [] = true
  is_empty (x ∷ xs) = false

  -- `[source, *path, sink] if path else []`
  abbrev pub between : String → List String → String → List String
  between source [] sink = []
  between source (x ∷ xs) sink = source ∷ (x ∷ xs) ++ sink ∷ []

  -- The first pair of modules with a path.
  unfoldable pub first_path : DiGraph → List (String × String) → List String
  first_path d [] = []
  first_path d ((a, b) ∷ pairs) =
      let path = nx_shortest_path d a b in
      let rest = first_path d pairs in if is_empty path then rest else path

  abbrev better : List String → List String → List String
  better candidate best =
      if not (is_empty candidate) && (is_empty best || ltb (length candidate) (length best))
      then candidate
      else best

  -- The shortest path between two different modules, the first of them where several are.
  unfoldable pub best_path : DiGraph → List (String × String) → List String → List String
  best_path d [] best = best
  best_path d ((a, b) ∷ pairs) best =
      best_path d pairs (if str_eq a b then best else better (nx_shortest_path d a b) best)

  abbrev pub or_else : List String → List String → List String
  or_else [] later = later
  or_else (x ∷ xs) later = x ∷ xs

  abbrev pub modules : ProgramGraph → String → String → List (String × String)
  modules g source sink = pairs_of (modules_for_function g source) (modules_for_function g sink)

  -- Between different repositories: an artifact path, then one between repositories.
  unfoldable pub across : ProgramGraph → String → String → List String
  across g source sink =
      let a = repository_node (repository_id g source) in
      let b = repository_node (repository_id g sink) in
      or_else
        (between source
          (first_path (typed_projection_kinds g artifact_kinds) (modules g source sink)) sink)
        (or_else
          (between source (nx_shortest_path (typed_projection_kinds g repository_kinds) a b) sink)
          (between source (nx_shortest_path (typed_projection_kinds g ("depends-on" ∷ [])) a b)
            sink))

  unfoldable pub within : ProgramGraph → String → String → List String
  within g source sink =
      between source
        (best_path (typed_projection_kinds g ("module-dependency" ∷ [])) (modules g source sink) [])
        sink

  unfoldable pub cross_repository_path : ProgramGraph → String → String → List String
  cross_repository_path g source sink =
      or_else (nx_shortest_path (project g (some precise_overlays) excluded) source sink) (
        if not (str_eq (repository_id g source) "")
          && not (str_eq (repository_id g source) (repository_id g sink))
        then across g source sink
        else within g source sink)
