-- ===== src/Ir/Cfg/Emit.antt =====
-- `_emit_sequence`, `_emit_try`, `_emit_switch` and `_build_function` of
-- scanner/src/aegify/ir/program_graph.py.
use aegify.Base.{
  ℕ, zero, suc, ◌+◌, ◌&&◌, ◌||◌, Bool, true, false, not, String, Option, none, some, List, [], ◌∷◌,
  ◌++◌, any, if◌then◌else◌, str_eq, str_mem,
}
use aegify.Ir.Cfg.Nodes.{
  Info, Node, function_terminal_types, Statement, simple, branch, loop_of, switch, try, Statements,
  end, ◌⨾◌, Clause, absent, present, Cases, no_case, case, Catches, no_catch, catch,
}
use aegify.Ir.Cfg.Statements.{body_statements}
use aegify.Ir.Cfg.Graph.{
  Role, NodeId, same_id, id_of, function_part, Facts, no_facts, Attributes, bare, CfgEdge, Graph,
  has_node, add_node, add_edge, cfg, conservative, Tail, link_tails, join_tails, join_nodes,
  add_join,
}

-- Where the jumps of a statement go.
pub record Targets : Type 0 where
  pub break_target : Option NodeId
  pub continue_target : Option NodeId
  pub terminal_target : Option NodeId

-- `terminal_target or exit_node`
abbrev pub terminal : Targets → NodeId
terminal c = elim c.terminal_target [ none ↦ function_part Role.exit | some x ↦ x ]

abbrev pub statement_id : Info → NodeId
statement_id i = id_of Role.statement i 0

abbrev take : ℕ → List ℕ → List ℕ
take zero cs = []
take (suc n) [] = []
take (suc n) (c ∷ cs) = c ∷ take n cs

abbrev pub contains : NodeId → CfgEdge
contains x = record {
  source = function_part Role.function;
  target = x;
  kind = "contains";
  overlay = "ast";
  fidelity = "";
}

-- The edge of a jump: a statement that jumps leaves no tail.
abbrev pub jump : String → Info → NodeId → Graph → List Tail × Graph
jump kind i x g = ([], add_edge (cfg kind (statement_id i) x) g)

unfoldable pub emit_terminal : Targets → Info → Graph → List Tail × Graph
emit_terminal c i g =
    if str_mem i.kind function_terminal_types
    then jump (elim c.terminal_target [ none ↦ "terminal" | some x ↦ "terminal-finally" ]) i
        (terminal c) g
    else ((statement_id i, "next") ∷ [], g)

unfoldable pub emit_jump :
    String → String → Option NodeId → Info → Graph → List Tail × Graph → List Tail × Graph
emit_jump syntax kind none i g otherwise = otherwise
emit_jump syntax kind (some x) i g otherwise =
    if str_eq i.kind syntax then jump kind i x g else otherwise

-- The last four cases of `_emit_sequence`.
unfoldable pub emit_simple : Targets → Info → Graph → List Tail × Graph
emit_simple c i g =
    emit_jump "break_statement" "break" c.break_target i g
      (emit_jump "continue_statement" "continue" c.continue_target i g (emit_terminal c i g))

abbrev pub case_kind : Bool → String
case_kind default = if default then "default" else "case"

-- The first loop over the cases.
unfoldable pub emit_entries : Info → ℕ → Cases → Graph → Graph
emit_entries i n no_case g = g
emit_entries i n (case default s cs) g =
    let entry = id_of Role.case_entry i n in
    emit_entries i (suc n) cs
      (add_edge (cfg (case_kind default) (statement_id i) entry) (add_join entry g))

-- Where a case that falls through goes: to the next one, and the last to the exit.
abbrev pub follow : Info → ℕ → Bool → Cases → String × NodeId
follow i n falls_through no_case = ("case-complete", id_of Role.switch_exit i 0)
follow i n falls_through (case d s cs) =
    if falls_through
    then ("fallthrough", id_of Role.case_entry i (suc n))
    else ("case-complete", id_of Role.switch_exit i 0)

abbrev pub has_out_edge : NodeId → String → Graph → Bool
has_out_edge x kind g = any (λ e. same_id e.source x && str_eq e.kind kind) g.edges

abbrev has_in_edge : NodeId → String → Graph → Bool
has_in_edge x kind g = any (λ e. same_id e.target x && str_eq e.kind kind) g.edges

-- `no-match`, where no case is the default.
unfoldable pub emit_no_match : Info → Graph → Graph
emit_no_match i g =
    if has_out_edge (statement_id i) "default" g
    then g
    else add_edge (cfg "no-match" (statement_id i) (id_of Role.switch_exit i 0)) g

-- The statements among the nodes that are in the second list and not in the first.
abbrev pub new_statements : List (NodeId × Attributes) → List (NodeId × Attributes) → List NodeId
new_statements before [] = []
new_statements before ((x, a) ∷ after) =
    let rest = new_statements before after in
    if not (has_node x before) && str_eq a.kind "statement" then x ∷ rest else rest

abbrev pub is_absent : Clause → Bool
is_absent absent = true
is_absent (present s) = false

abbrev pub is_uncaught : Catches → List NodeId → Bool
is_uncaught no_catch [] = false
is_uncaught no_catch (x ∷ xs) = true
is_uncaught (catch s cs) xs = false

-- Without a `catch`, an exception leaves the body.
unfoldable pub emit_uncaught : Targets → Catches → List NodeId → Graph → Graph
emit_uncaught inner no_catch body g = join_nodes "uncaught-exception" (terminal inner) body g
emit_uncaught inner (catch s cs) body g = g

-- `finally_entry or terminal_target`
abbrev pub inner_targets : Targets → Info → Clause → Targets
inner_targets c i absent = c
inner_targets c i (present s) = record c { terminal_target = some (id_of Role.finally_entry i 0) }

unfoldable pub add_finally_entry : Info → Clause → Graph → Graph
add_finally_entry i absent g = g
add_finally_entry i (present s) g = add_join (id_of Role.finally_entry i 0) g

-- The edges from the end of `finally`: on, and back to a terminal that it interrupted.
unfoldable pub finish_finally : Targets → Info → Bool → List Tail → Graph → Graph
finish_finally c i resumes [] g = g
finish_finally c i resumes ((t, k) ∷ tails) g =
    let g1 = add_edge (cfg "finally-complete" t (id_of Role.try_exit i 0)) g in
    finish_finally c i resumes tails
      (if resumes then add_edge (conservative "finally-resume-terminal" t (terminal c)) g1 else g1)

abbrev pub no_targets : Targets
no_targets = record { break_target = none; continue_target = none; terminal_target = none }

abbrev pub semantic : String → NodeId → NodeId → CfgEdge
semantic kind s t = record {
  source = s;
  target = t;
  kind = kind;
  overlay = "semantic";
  fidelity = "";
}

module _ (data_facts : List ℕ → Facts) where
  abbrev statement_attributes : Info → List ℕ → Attributes
  statement_attributes i text = record {
    kind = "statement";
    syntax_kind = i.kind;
    line_start = i.first_row + 1;
    line_end = i.last_row + 1;
    code = take 1000 i.text;
    facts = data_facts text;
  }

  -- What `_emit_sequence` does for every statement first.
  unfoldable pub enter : Info → List ℕ → List Tail → Graph → Graph
  enter i text tails g = link_tails (statement_id i) tails (
      add_edge (contains (statement_id i))
        (add_node (statement_id i) (statement_attributes i text) g))

  unfoldable mutual
    pub emit_sequence : Targets → Statements → List Tail → Graph → List Tail × Graph
    emit_sequence c end tails g = (tails, g)
    emit_sequence c (x ⨾ s) tails g =
        let r = emit_statement c x tails g in emit_sequence c s r.0 r.1

    pub emit_statement : Targets → Statement → List Tail → Graph → List Tail × Graph
    emit_statement c (simple i) tails g = emit_simple c i (enter i i.text tails g)
    emit_statement c (branch i text consequence alternative) tails g =
        let r =
          emit_sequence c consequence ((statement_id i, "true") ∷ []) (enter i text tails g) in
        let q = emit_clause c alternative ((statement_id i, "false") ∷ []) r.1 in (r.0 ++ q.0, q.1)
    emit_statement c (loop_of i text body) tails g =
        let loop_exit = id_of Role.loop_exit i 0 in
        let g1 =
          add_edge (cfg "false" (statement_id i) loop_exit)
            (add_join loop_exit (enter i text tails g)) in
        let r =
          emit_sequence
            (record c { break_target = some loop_exit; continue_target = some (statement_id i) })
            body ((statement_id i, "true") ∷ []) g1 in
        ((loop_exit, "next") ∷ [], join_tails "loop-back" (statement_id i) r.0 r.1)
    emit_statement c (switch i text falls_through no_case) tails g =
        let switch_exit = id_of Role.switch_exit i 0 in
        (
          (switch_exit, "next") ∷ [],
          add_edge (cfg "no-match" (statement_id i) switch_exit)
              (add_join switch_exit (enter i text tails g)),
        )
    emit_statement c (switch i text falls_through (case d s cs)) tails g =
        let switch_exit = id_of Role.switch_exit i 0 in
        let g1 = emit_entries i 0 (case d s cs) (add_join switch_exit (enter i text tails g)) in
        let g2 =
          emit_cases (record c { break_target = some switch_exit }) i 0 falls_through (case d s cs)
            g1 in
        ((switch_exit, "next") ∷ [], emit_no_match i g2)
    emit_statement c (try i body catches otherwise finally) tails g =
        let inner = inner_targets c i finally in
        let try_exit = id_of Role.try_exit i 0 in
        let g1 = add_finally_entry i finally (add_join try_exit (enter i i.text tails g)) in
        let r = emit_sequence inner body ((statement_id i, "try") ∷ []) g1 in
        let inside = new_statements g1.nodes r.1.nodes in
        let k = emit_catches inner i 0 inside catches r.1 in
        let g2 = emit_uncaught inner catches inside k.1 in
        let n = emit_clause inner otherwise r.0 g2 in
        (
          (try_exit, "next") ∷ [],
          emit_finally c i (is_uncaught catches inside) (n.0 ++ k.0) finally n.1,
        )

    -- The statements of a clause, or the tails as they were.
    pub emit_clause : Targets → Clause → List Tail → Graph → List Tail × Graph
    emit_clause c absent tails g = (tails, g)
    emit_clause c (present s) tails g = emit_sequence c s tails g

    -- The second loop over the cases.
    pub emit_cases : Targets → Info → ℕ → Bool → Cases → Graph → Graph
    emit_cases c i n falls_through no_case g = g
    emit_cases c i n falls_through (case d s cs) g =
        let r = emit_sequence c s ((id_of Role.case_entry i n, "case-body") ∷ []) g in
        let next = follow i n falls_through cs in
        emit_cases c i (suc n) falls_through cs (join_tails next.0 next.1 r.0 r.1)

    -- The loop over the `catch` clauses.
    pub emit_catches : Targets → Info → ℕ → List NodeId → Catches → Graph → List Tail × Graph
    emit_catches c i n inside no_catch g = ([], g)
    emit_catches c i n inside (catch s cs) g =
        let entry = id_of Role.catch_entry i n in
        let g1 = join_nodes "exception" entry inside (
          add_edge (conservative "exception-dispatch" (statement_id i) entry) (add_join entry g)) in
        let r = emit_sequence c s ((entry, "catch") ∷ []) g1 in
        let k = emit_catches c i (suc n) inside cs r.1 in (r.0 ++ k.0, k.1)

    -- From the end of the body, its `else` and the `catch` clauses on.
    pub emit_finally : Targets → Info → Bool → List Tail → Clause → Graph → Graph
    emit_finally c i uncaught tails absent g =
        join_tails "try-complete" (id_of Role.try_exit i 0) tails g
    emit_finally c i uncaught tails (present s) g =
        let finally_entry = id_of Role.finally_entry i 0 in
        let resumes = uncaught || has_in_edge finally_entry "terminal-finally" g in
        let r =
          emit_sequence c s ((finally_entry, "finally-body") ∷ [])
            (join_tails "finally" finally_entry tails g) in
        finish_finally c i resumes r.0 r.1

  -- The nodes and edges that come before the body. The entry defines the parameters.
  unfoldable pub prepare : List String → Graph → Graph
  prepare parameters g =
      let function = function_part Role.function in
      let file = function_part Role.file in
      add_edge (contains (function_part Role.entry)) (
        add_node (function_part Role.exit) (bare "exit" no_facts) (
          add_node (function_part Role.entry)
            (bare "entry" (record no_facts { definitions = parameters }))
            (add_edge (semantic "declares" file function) (
              add_edge (semantic "declared-in" function file) (
                add_node file (bare "file" no_facts)
                  (add_node function (bare "function" no_facts) g))))))

  unfoldable pub build_function : List String → Node → Graph → Graph
  build_function parameters n g =
      let r =
        emit_sequence no_targets (body_statements n) ((function_part Role.entry, "next") ∷ [])
          (prepare parameters g) in
      link_tails (function_part Role.exit) r.0 r.1
