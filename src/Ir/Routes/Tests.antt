-- ===== src/Ir/Routes/Tests.antt =====
-- Path queries (scanner/src/aegify/ir/query.py) with a search that finds direct edges, and their
-- theorems at them.
use aegify.Base.{
  pos, ◌≡◌, ◌≤◌, refl, subst, Bool, true, false, ◌&&◌, ◌||◌, String, none, some, List, [], ◌∷◌, All,
  map, arith, length, if◌then◌else◌, str_eq, eq_iff, Member, Bool-cases, inl, inr, sorted,
}
use aegify.Ir.Dataflow.Definitions.{update}
use aegify.Ir.Routes.Projections.{
  ProgramGraph, GraphEdge, Finder, IsFinder, IsChain, project, typed_projection_kinds,
  modules_for_function, repository_id,
}
use aegify.Ir.Routes.Queries.{
  source_to_sink_paths, collect, cross_repository_path, within, best_path,
}
use aegify.Ir.Routes.Chains.{IsFlowPath, source_to_sink_paths-IsFlowPath}
use aegify.Ir.Routes.Across.{IsRoute, cross_repository_path-IsRoute}

abbrev linked : List (String × String) → String → String → Bool
linked [] s t = false
linked ((a, b) ∷ links) s t = str_eq a s && str_eq b t || linked links s t

abbrev direct : Finder
direct d s t = if linked d.links s t then some (s ∷ t ∷ []) else none

linked-Member :
    (links : List (String × String)) (s t : String) → linked links s t ≡ true → Member (s, t) links
linked-Member [] s t h = absurd (cc)
linked-Member ((a, b) ∷ links) s t h = elim (Bool-cases (str_eq a s && str_eq b t)) [
  | inl e ↦
      let p : a ≡ s = ground (arith, eq_iff a s) in
      let q : b ≡ t = ground (arith, eq_iff b t) in Member.here (rw (p, q) refl)
  | inr e ↦ Member.there (linked-Member links s t (ground arith))
]

direct-IsFinder : IsFinder direct
unfolding IsFinder
direct-IsFinder d s t path h = elim (Bool-cases (linked d.links s t)) [
  | inl e ↦
      let same : s ∷ t ∷ [] ≡ path = ground arith in
      subst (IsChain d t s) same (IsChain.step (linked-Member d.links s t e) IsChain.stop)
  | inr e ↦ absurd (ground arith)
]

abbrev joins : String → String → String → String → GraphEdge
joins source target kind overlay = record {
  source = source;
  target = target;
  kind = some kind;
  overlay = some overlay;
}

abbrev graph : ProgramGraph
graph = record {
  nodes = "get" ∷ "query" ∷ "get.kt" ∷ "query.kt" ∷ "web" ∷ "store" ∷ [];
  edges =
      joins "get" "query" "module-dependency" "call"
      ∷ joins "get" "get.kt" "declared-in" "ast"
      ∷ joins "query" "query.kt" "declared-in" "ast"
      ∷ joins "get.kt" "web" "member-of-module" "ast"
      ∷ joins "query.kt" "store" "member-of-module" "ast"
      ∷ joins "web" "store" "module-dependency" "module"
      ∷ joins "web" "store" "flows" "taint"
      ∷ [];
  repository_ids = ("shop", "stores") ∷ [];
}

through_modules :
    cross_repository_path direct graph "get" "query" ≡ "get" ∷ "web" ∷ "store" ∷ "query" ∷ []
unfolding cross_repository_path within best_path typed_projection_kinds project modules_for_function
    update sorted repository_id
through_modules = refl

repositories :
    map (repository_id graph) ("shop" ∷ "repo:web:main" ∷ "repository:a:b" ∷ "query" ∷ [])
    ≡ "stores" ∷ "web" ∷ "a:b" ∷ "" ∷ []
unfolding repository_id
repositories = refl

flows :
    source_to_sink_paths direct graph ("web" ∷ "get" ∷ []) ("store" ∷ "query" ∷ []) (pos 5)
    ≡ ("web" ∷ "store" ∷ []) ∷ []
unfolding source_to_sink_paths collect project sorted
flows = refl

cross_repository_path-IsRoute_example :
    IsRoute direct graph "get" "query" (cross_repository_path direct graph "get" "query")
cross_repository_path-IsRoute_example =
    cross_repository_path-IsRoute direct graph "get" "query" direct-IsFinder

source_to_sink_paths-IsFlowPath_example :
    All
      (IsFlowPath graph ("web" ∷ "get" ∷ []) ("store" ∷ "query" ∷ []))
      (source_to_sink_paths direct graph ("web" ∷ "get" ∷ []) ("store" ∷ "query" ∷ []) (pos 5))
    × (length
          (source_to_sink_paths direct graph ("web" ∷ "get" ∷ []) ("store" ∷ "query" ∷ []) (pos 5))
        ≤ 5)
source_to_sink_paths-IsFlowPath_example =
    source_to_sink_paths-IsFlowPath direct graph ("web" ∷ "get" ∷ []) ("store" ∷ "query" ∷ []) 4
      direct-IsFinder
