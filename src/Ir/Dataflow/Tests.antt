-- ===== src/Ir/Dataflow/Tests.antt =====
-- Reaching definitions (scanner/src/aegify/ir/program_graph.py) of a loop with two definitions of a
-- variable, and their theorems at them.
use aegify.Base.{
  ◌≡◌, ◌↔◌, refl, true, ◌||◌, String, List, [], ◌∷◌, arith, if◌then◌else◌, str_eq, eq_iff, Member,
  sorted, Bool-cases, inl, inr,
}
use aegify.Ir.Dataflow.Definitions.{
  Flow, defs_of, at, update, merge_keys, merge_all, define, same_dict, current_in, visit_nodes,
  rounds, reaching_definitions,
}
use aegify.Ir.Dataflow.Sets.{holds}
use aegify.Ir.Dataflow.Overlays.{def_use_edge, def_use_edges}
use aegify.Ir.Dataflow.Edges.{def_use_edges-decide}
use aegify.Ir.Dataflow.Reaching.{Reaches, IsFlow, reaching_definitions-decides}

abbrev before : String → List String
before n =
    if str_eq n "b head"
    then "a set" ∷ "c body" ∷ []
    else if str_eq n "c body"
    then "b head" ∷ []
    else if str_eq n "d use"
    then "b head" ∷ []
    else []

abbrev defined : String → List String
defined n = if str_eq n "a set" || str_eq n "c body" then "x" ∷ [] else []

abbrev used : String → List String
used n = if str_eq n "d use" then "x" ∷ [] else []

abbrev loop : Flow
loop = record {
  nodes = "a set" ∷ "b head" ∷ "c body" ∷ "d use" ∷ [];
  predecessors = before;
  definitions = defined;
  uses = used;
}

converges : (reaching_definitions loop).1 ≡ true
unfolding reaching_definitions rounds visit_nodes same_dict define current_in merge_all merge_keys
    update sorted
converges = refl

both_reach :
    defs_of "x" (at "d use" (reaching_definitions loop).0.in_defs) ≡ "a set" ∷ "c body" ∷ []
unfolding reaching_definitions rounds visit_nodes same_dict define current_in merge_all merge_keys
    update sorted
both_reach = refl

loop-IsFlow : IsFlow loop
unfolding IsFlow
loop-IsFlow n p h = elim (Bool-cases (str_eq n "b head")) [
  | inl e ↦ elim (Bool-cases (str_eq p "a set")) [
    | inl q ↦ Member.here ((eq_iff p "a set").0 q)
    | inr q ↦ Member.there (Member.there (Member.here ((eq_iff p "c body").0 (ground arith))))
  ]
  | inr e ↦ elim (Bool-cases (str_eq n "c body")) [
    | inl q ↦ Member.there (Member.here ((eq_iff p "b head").0 (ground arith)))
    | inr q ↦ elim (Bool-cases (str_eq n "d use")) [
      | inl r ↦ Member.there (Member.here ((eq_iff p "b head").0 (ground arith)))
      | inr r ↦ absurd (ground arith)
    ]
  ]
]

body_reaches_use : holds "c body" "x" (at "d use" (reaching_definitions loop).0.in_defs) ≡ true
unfolding reaching_definitions rounds visit_nodes same_dict define current_in merge_all merge_keys
    update sorted
body_reaches_use = refl

reaching_definitions-decides_example :
    (holds "c body" "x" (at "d use" (reaching_definitions loop).0.in_defs) ≡ true)
    ↔ Reaches loop "c body" "x" "d use"
reaching_definitions-decides_example =
    reaching_definitions-decides loop "d use" "c body" "x" loop-IsFlow
      (Member.there (Member.there (Member.there (Member.here refl)))) converges

def_use_edges-decide_example :
    Member (def_use_edge "d use" "x" "c body") (def_use_edges loop (reaching_definitions loop).0)
    ↔ (Member {A = String} "x" (used "d use") × Reaches loop "c body" "x" "d use")
def_use_edges-decide_example =
    def_use_edges-decide loop "c body" "d use" "x" loop-IsFlow
      (Member.there (Member.there (Member.there (Member.here refl)))) converges
