-- ===== src/Ir/Cfg/Grows.antt =====
-- The edges of a graph while `_emit_sequence` and its helpers
-- (scanner/src/aegify/ir/program_graph.py) add to it.
use aegify.Base.{
  ℕ, suc, refl, ◌≡◌, subst, Bool, true, false, String, Option, none, some, List, [], ◌∷◌, Member,
  append-left, append-right, if◌then◌else◌, str_eq, str_mem,
}
use aegify.Ir.Cfg.Nodes.{
  Info, function_terminal_types, Statement, simple, branch, loop_of, switch, try, Statements, end,
  ◌⨾◌, Clause, absent, present, Cases, no_case, case, Catches, no_catch, catch,
}
use aegify.Ir.Cfg.Graph.{
  Role, NodeId, id_of, Facts, Attributes, CfgEdge, Graph, add_node, add_edge, cfg, conservative,
  Tail, link_tails, join_tails, join_nodes, add_join,
}
use aegify.Ir.Cfg.Emit.{
  Targets, terminal, statement_id, contains, jump, emit_terminal, emit_jump, emit_simple,
  emit_entries, emit_no_match, emit_uncaught, add_finally_entry, finish_finally, enter,
  emit_sequence, emit_statement, emit_clause, emit_cases, emit_catches, emit_finally,
}

-- Every edge of the first graph is in the second.
pub record Grows (g h : Graph) : Type 0 where
  pub keeps : (e : CfgEdge) → Member e g.edges → Member e h.edges

pub stay : (g h : Graph) → g.edges ≡ h.edges → Grows g h
stay g h p = record { keeps = λ e m. subst (Member e) p m }

pub grow_on : {g h k : Graph} → Grows g h → Grows h k → Grows g k
grow_on p q = record { keeps = λ e m. q.keeps e (p.keeps e m) }

abbrev pub Result : Type 0
Result = List Tail × Graph

pub add_node-Grows : (x : NodeId) (a : Attributes) (g : Graph) → Grows g (add_node x a g)
unfolding add_node
add_node-Grows x a g = stay _ _ refl

pub add_join-Grows : (x : NodeId) (g : Graph) → Grows g (add_join x g)
unfolding add_join
add_join-Grows x g = add_node-Grows x _ g

pub add_edge-Grows : (e : CfgEdge) (g : Graph) → Grows g (add_edge e g)
unfolding add_edge
add_edge-Grows e g = record { keeps = λ x m. append-left x g.edges (e ∷ []) m }

pub add_edge-Member : (e : CfgEdge) (g : Graph) → Member e (add_edge e g).edges
unfolding add_edge
add_edge-Member e g = append-right e g.edges (e ∷ []) (Member.here refl)

pub link_tails-Grows : (x : NodeId) (tails : List Tail) (g : Graph) → Grows g (link_tails x tails g)
unfolding link_tails
link_tails-Grows x [] g = stay _ _ refl
link_tails-Grows x ((t, kind) ∷ tails) g =
    grow_on (add_edge-Grows (cfg kind t x) g) (link_tails-Grows x tails _)

pub join_tails-Grows :
    (kind : String) (x : NodeId) (tails : List Tail) (g : Graph)
    → Grows g (join_tails kind x tails g)
unfolding join_tails
join_tails-Grows kind x [] g = stay _ _ refl
join_tails-Grows kind x ((t, k) ∷ tails) g =
    grow_on (add_edge-Grows (cfg kind t x) g) (join_tails-Grows kind x tails _)

pub join_nodes-Grows :
    (kind : String) (x : NodeId) (ns : List NodeId) (g : Graph) → Grows g (join_nodes kind x ns g)
unfolding join_nodes
join_nodes-Grows kind x [] g = stay _ _ refl
join_nodes-Grows kind x (n ∷ ns) g =
    grow_on (add_edge-Grows (conservative kind n x) g) (join_nodes-Grows kind x ns _)

pub if-Grows : (b : Bool) (g h k : Graph) → Grows g h → Grows g k → Grows g (if b then h else k)
if-Grows true g h k p q = p
if-Grows false g h k p q = q

if_result-Grows :
    (b : Bool) (g : Graph) (r q : Result)
    → Grows g r.1
    → Grows g q.1
    → Grows g (if b then r else q).1
if_result-Grows true g r q p s = p
if_result-Grows false g r q p s = s

emit_jump-Grows :
    (syntax kind : String) (o : Option NodeId) (i : Info) (g : Graph) (r : Result)
    → Grows g r.1
    → Grows g (emit_jump syntax kind o i g r).1
unfolding emit_jump
emit_jump-Grows syntax kind none i g r p = p
emit_jump-Grows syntax kind (some x) i g r p =
    if_result-Grows (str_eq i.kind syntax) g (jump kind i x g) r
      (add_edge-Grows (cfg kind (statement_id i) x) g) p

emit_terminal-Grows : (c : Targets) (i : Info) (g : Graph) → Grows g (emit_terminal c i g).1
unfolding emit_terminal
emit_terminal-Grows c i g =
    if_result-Grows (str_mem i.kind function_terminal_types) g _ _ (add_edge-Grows _ g)
      (stay _ _ refl)

pub emit_simple-Grows : (c : Targets) (i : Info) (g : Graph) → Grows g (emit_simple c i g).1
unfolding emit_simple
emit_simple-Grows c i g =
    emit_jump-Grows _ _ c.break_target i g _
      (emit_jump-Grows _ _ c.continue_target i g _ (emit_terminal-Grows c i g))

pub emit_entries-Grows :
    (i : Info) (n : ℕ) (cs : Cases) (g : Graph) → Grows g (emit_entries i n cs g)
unfolding emit_entries
emit_entries-Grows i n no_case g = stay _ _ refl
emit_entries-Grows i n (case d s cs) g =
    grow_on (add_join-Grows _ g) (grow_on (add_edge-Grows _ _) (emit_entries-Grows i (suc n) cs _))

pub emit_no_match-Grows : (i : Info) (g : Graph) → Grows g (emit_no_match i g)
unfolding emit_no_match
emit_no_match-Grows i g = if-Grows _ g g _ (stay _ _ refl) (add_edge-Grows _ g)

pub emit_uncaught-Grows :
    (c : Targets) (k : Catches) (ns : List NodeId) (g : Graph) → Grows g (emit_uncaught c k ns g)
unfolding emit_uncaught
emit_uncaught-Grows c no_catch ns g = join_nodes-Grows _ _ ns g
emit_uncaught-Grows c (catch s k) ns g = stay _ _ refl

pub finally_entry-Grows : (i : Info) (f : Clause) (g : Graph) → Grows g (add_finally_entry i f g)
unfolding add_finally_entry
finally_entry-Grows i absent g = stay _ _ refl
finally_entry-Grows i (present s) g = add_join-Grows _ g

pub finish_finally-Grows :
    (c : Targets) (i : Info) (b : Bool) (tails : List Tail) (g : Graph)
    → Grows g (finish_finally c i b tails g)
unfolding finish_finally
finish_finally-Grows c i b [] g = stay _ _ refl
finish_finally-Grows c i b ((t, k) ∷ tails) g =
    grow_on (add_edge-Grows (cfg "finally-complete" t (id_of Role.try_exit i 0)) g) (
      grow_on
        (if-Grows b _ _ _ (add_edge-Grows (conservative "finally-resume-terminal" t (terminal c)) _)
          (stay _ _ refl))
        (finish_finally-Grows c i b tails _))

module _ (data_facts : List ℕ → Facts) where
  pub enter-Grows :
      (i : Info) (text : List ℕ) (tails : List Tail) (g : Graph)
      → Grows g (enter data_facts i text tails g)
  unfolding enter
  enter-Grows i text tails g = grow_on (add_node-Grows _ _ g) (
      grow_on (add_edge-Grows (contains (statement_id i)) _)
        (link_tails-Grows (statement_id i) tails _))

  mutual
    unfolding emit_sequence

    pub sequence-Grows :
        (c : Targets) (s : Statements) (tails : List Tail) (g : Graph)
        → Grows g (emit_sequence data_facts c s tails g).1
    sequence-Grows c end tails g = stay _ _ refl
    sequence-Grows c (x ⨾ s) tails g =
        grow_on (statement-Grows c x tails g) (sequence-Grows c s _ _)

    pub statement-Grows :
        (c : Targets) (x : Statement) (tails : List Tail) (g : Graph)
        → Grows g (emit_statement data_facts c x tails g).1
    statement-Grows c (simple i) tails g =
        grow_on (enter-Grows i i.text tails g) (emit_simple-Grows c i _)
    statement-Grows c (branch i text s f) tails g =
        grow_on (enter-Grows i text tails g)
          (grow_on (sequence-Grows c s _ _) (clause-Grows c f _ _))
    statement-Grows c (loop_of i text s) tails g = grow_on (enter-Grows i text tails g) (
        grow_on (add_join-Grows _ _) (
          grow_on (add_edge-Grows _ _)
            (grow_on (sequence-Grows _ s _ _) (join_tails-Grows _ _ _ _))))
    statement-Grows c (switch i text b no_case) tails g =
        grow_on (enter-Grows i text tails g) (grow_on (add_join-Grows _ _) (add_edge-Grows _ _))
    statement-Grows c (switch i text b (case d s cs)) tails g =
        grow_on (enter-Grows i text tails g) (
          grow_on (add_join-Grows _ _) (
            grow_on (emit_entries-Grows i 0 (case d s cs) _)
              (grow_on (cases-Grows _ i 0 b (case d s cs) _) (emit_no_match-Grows i _))))
    statement-Grows c (try i s k f l) tails g = grow_on (enter-Grows i i.text tails g) (
        grow_on (grow_on (add_join-Grows _ _) (finally_entry-Grows i l _)) (
          grow_on (sequence-Grows _ s _ _) (
            grow_on (catches-Grows _ i 0 _ k _) (
              grow_on (emit_uncaught-Grows _ k _ _)
                (grow_on (clause-Grows _ f _ _) (finally-Grows c i _ _ l _))))))

    pub clause-Grows :
        (c : Targets) (f : Clause) (tails : List Tail) (g : Graph)
        → Grows g (emit_clause data_facts c f tails g).1
    clause-Grows c absent tails g = stay _ _ refl
    clause-Grows c (present s) tails g = sequence-Grows c s tails g

    pub cases-Grows :
        (c : Targets) (i : Info) (n : ℕ) (b : Bool) (cs : Cases) (g : Graph)
        → Grows g (emit_cases data_facts c i n b cs g)
    cases-Grows c i n b no_case g = stay _ _ refl
    cases-Grows c i n b (case d s cs) g =
        grow_on (sequence-Grows c s _ _)
          (grow_on (join_tails-Grows _ _ _ _) (cases-Grows c i (suc n) b cs _))

    pub catches-Grows :
        (c : Targets) (i : Info) (n : ℕ) (inside : List NodeId) (k : Catches) (g : Graph)
        → Grows g (emit_catches data_facts c i n inside k g).1
    catches-Grows c i n inside no_catch g = stay _ _ refl
    catches-Grows c i n inside (catch s k) g =
        grow_on (grow_on (add_join-Grows _ g) (add_edge-Grows _ _)) (
          grow_on (join_nodes-Grows _ _ inside _)
            (grow_on (sequence-Grows c s _ _) (catches-Grows c i (suc n) inside k _)))

    pub finally-Grows :
        (c : Targets) (i : Info) (b : Bool) (tails : List Tail) (f : Clause) (g : Graph)
        → Grows g (emit_finally data_facts c i b tails f g)
    finally-Grows c i b tails absent g = join_tails-Grows _ _ tails g
    finally-Grows c i b tails (present s) g =
        grow_on (join_tails-Grows _ _ tails g)
          (grow_on (sequence-Grows c s _ _) (finish_finally-Grows c i _ _ _))
