-- ===== src/Ir/Cfg/Tests.antt =====
-- A function with a loop, a jump and a `try` (scanner/src/aegify/ir/program_graph.py), and its theorems
-- at it.
use aegify.Base.{ℕ, ◌≡◌, ◌≢◌, refl, String, none, some, List, [], ◌∷◌, map, Member, codes}
use aegify.Ir.Cfg.Nodes.{Node, node, Children, no_child, child}
use aegify.Ir.Cfg.Statements.{annotate, body_statements}
use aegify.Ir.Cfg.Graph.{
  Role, function_part, Facts, no_facts, CfgEdge, add_node, add_edge, add_join, link_tails,
  join_tails, join_nodes,
}
use aegify.Ir.Cfg.Emit.{
  build_function, prepare, emit_sequence, enter, emit_simple, emit_jump, emit_terminal,
  emit_entries, emit_no_match, emit_uncaught, add_finally_entry, finish_finally,
}
use aegify.Ir.Cfg.Exit.{Reaches, empty_graph, build_function-Reaches}

abbrev leaf : String → ℕ → Node
leaf kind at =
    node (record { kind = kind; start_byte = at; first_row = at; last_row = at; text = codes kind })
      no_child

abbrev tree : String → ℕ → Children → Node
tree kind at cs =
    node (record { kind = kind; start_byte = at; first_row = at; last_row = at; text = codes kind })
      cs

-- while (a) { try { b; break } finally { c } } return
abbrev function : Node
function = tree "function_definition" 0 (
    child (some "body")
      (tree "block" 1 (
        child none
          (tree "while_statement" 2 (
            child (some "condition") (leaf "identifier" 3) (
              child (some "body")
                (tree "block" 4 (
                  child none
                    (tree "try_statement" 5 (
                      child (some "body")
                        (tree "block" 6 (
                          child none (leaf "expression_statement" 7)
                            (child none (leaf "break_statement" 8) no_child)))
                        (child none
                          (tree "finally_clause" 9 (
                            child none (tree "block" 10 (child none (leaf "call" 11) no_child))
                              no_child))
                          no_child)))
                    no_child))
                no_child)))
          (child none (leaf "return_statement" 12) no_child)))
      no_child)

abbrev data_facts : List ℕ → Facts
data_facts text = no_facts

abbrev shown : CfgEdge → ℕ × ℕ × String
shown e = (e.source.start_byte, e.target.start_byte, e.kind)

edges :
    map shown (build_function data_facts [] function empty_graph).edges
    ≡ (0, 0, "declared-in")
      ∷ (0, 0, "declares")
      ∷ (0, 0, "contains")
      ∷ (0, 2, "contains")
      ∷ (0, 2, "next")
      ∷ (2, 2, "false")
      ∷ (0, 5, "contains")
      ∷ (2, 5, "true")
      ∷ (0, 7, "contains")
      ∷ (5, 7, "try")
      ∷ (0, 8, "contains")
      ∷ (7, 8, "next")
      ∷ (8, 2, "break")
      ∷ (7, 5, "uncaught-exception")
      ∷ (8, 5, "uncaught-exception")
      ∷ (0, 11, "contains")
      ∷ (5, 11, "finally-body")
      ∷ (11, 5, "finally-complete")
      ∷ (11, 0, "finally-resume-terminal")
      ∷ (5, 2, "loop-back")
      ∷ (0, 12, "contains")
      ∷ (2, 12, "next")
      ∷ (12, 0, "terminal")
      ∷ []
unfolding build_function prepare body_statements annotate emit_sequence enter emit_simple emit_jump
    emit_terminal emit_entries emit_no_match emit_uncaught add_finally_entry finish_finally add_node
    add_edge add_join link_tails join_tails join_nodes
edges = refl

build_function-Reaches_example :
    Reaches
      (build_function data_facts [] function empty_graph)
      (function_part Role.exit)
      (function_part Role.entry)
    × ((e : CfgEdge)
        → Member e (build_function data_facts [] function empty_graph).edges
        → e.overlay ≢ "semantic"
        → Reaches
            (build_function data_facts [] function empty_graph)
            (function_part Role.exit)
            e.target)
build_function-Reaches_example = build_function-Reaches data_facts [] function
