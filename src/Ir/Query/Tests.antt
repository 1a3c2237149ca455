-- ===== src/Ir/Query/Tests.antt =====
-- Runs of the queries of scanner/src/aegify/ir/query.py, and their theorems at them. Two callers
-- share one callee: the graph has a path from the first caller to the return point of the second,
-- and no balanced one.
use aegify.Base.{
  pos, ◌≡◌, ◌↔◌, refl, true, false, String, Option, none, some, List, [], ◌∷◌, str_mem, ok, raise,
  lookup, sorted,
}
use aegify.Ir.Query.Edges.{Edge, edge_before, selected_overlays}
use aegify.Ir.Query.Context.{
  ContextState, GraphView, QueryError, accepts, begin, transition, visit_edges, reconstruct, expand,
  search, context_balanced_path, context_balanced_reachable,
}
use aegify.Ir.Query.Walks.{Walk}
use aegify.Ir.Query.Paths.{Reaches, context_balanced_path_sound, context_balanced_reachable-decides}

abbrev edge : String → String → String → String → Edge
edge target kind overlay callsite_id = record {
  target = target;
  key = kind;
  kind = kind;
  overlay = some overlay;
  callsite_id = callsite_id;
}

abbrev edges : List (String × List Edge)
edges =
    ("first", edge "callee" "interprocedural-call" "icfg" "site-1" ∷ [])
    ∷ ("second", edge "callee" "interprocedural-call" "icfg" "site-2" ∷ [])
    ∷ ("callee", edge "exit" "next" "cfg" "" ∷ [])
    ∷ (
      "exit",
      edge "after second" "interprocedural-return" "icfg" "site-2"
          ∷ edge "after first" "interprocedural-return" "icfg" "site-1"
          ∷ [],
    )
    ∷ []

abbrev listed : Option (List Edge) → List Edge
listed none = []
listed (some es) = es

abbrev graph : GraphView
graph = record {
  has_node =
      λ n. str_mem n ("first" ∷ "second" ∷ "callee" ∷ "exit" ∷ "after first" ∷ "after second" ∷ []);
  out_edges = λ n. listed (lookup n edges);
}

returns_to_its_caller :
    context_balanced_path graph "first" "after first" none (pos 8) (pos 100) true
    ≡ ok ("first" ∷ "callee" ∷ "exit" ∷ "after first" ∷ [])
unfolding context_balanced_path search expand visit_edges transition reconstruct sorted edge_before
returns_to_its_caller = refl

never_to_another :
    context_balanced_path graph "first" "after second" none (pos 8) (pos 100) true ≡ ok []
unfolding context_balanced_path search expand visit_edges transition reconstruct sorted edge_before
never_to_another = refl

not_reachable :
    context_balanced_reachable graph "first" "after second" none (pos 8) (pos 100) true ≡ ok false
unfolding context_balanced_reachable context_balanced_path search expand visit_edges transition
    reconstruct sorted edge_before
not_reachable = refl

open_call : context_balanced_path graph "first" "exit" none (pos 8) (pos 100) true ≡ ok []
unfolding context_balanced_path search expand visit_edges transition reconstruct sorted edge_before
open_call = refl

cut_off :
    context_balanced_path graph "first" "after first" none (pos 0) (pos 100) true
    ≡ raise QueryError.depth_exceeded
unfolding context_balanced_path search expand visit_edges transition reconstruct sorted edge_before
cut_off = refl

too_many :
    context_balanced_path graph "first" "after first" none (pos 8) (pos 2) true
    ≡ raise QueryError.states_exceeded
unfolding context_balanced_path search expand visit_edges transition reconstruct sorted edge_before
too_many = refl

context_balanced_path_sound_example :
    (end : ContextState) × Walk graph.out_edges
      (selected_overlays none)
      (begin "first")
      end
      ("first" ∷ "callee" ∷ "exit" ∷ "after first" ∷ [])
    × (accepts "after first" true end ≡ true)
context_balanced_path_sound_example =
    context_balanced_path_sound graph "first" "after first" none (pos 8) (pos 100) true "first"
      ("callee" ∷ "exit" ∷ "after first" ∷ []) returns_to_its_caller

context_balanced_reachable-decides_example :
    (false ≡ true) ↔ Reaches graph "first" "after second" none true
context_balanced_reachable-decides_example =
    context_balanced_reachable-decides graph "first" "after second" none (pos 8) (pos 100) true
      false refl refl not_reachable
