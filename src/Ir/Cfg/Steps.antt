-- ===== src/Ir/Cfg/Steps.antt =====
-- Properties of nodes that go backwards along the control flow, and the single steps with which
-- scanner/src/aegify/ir/program_graph.py builds it.
use aegify.Base.{
  ℕ, suc, ◌≡◌, refl, subst, sym, ◌⊎◌, inl, inr, Bool, true, false, String, Option, none, some, List,
  [], ◌∷◌, All, Member, append-cases, if◌then◌else◌, str_eq, str_mem,
}
use aegify.Ir.Cfg.Nodes.{
  Info, function_terminal_types, Statements, Clause, absent, present, Cases, no_case, case, Catches,
  no_catch, catch,
}
use aegify.Ir.Cfg.Graph.{
  Role, NodeId, id_of, function_part, Facts, Attributes, CfgEdge, Graph, add_node, add_edge, cfg,
  Tail, link_tails, join_tails, join_nodes, add_join,
}
use aegify.Ir.Cfg.Emit.{
  Targets, terminal, statement_id, jump, emit_terminal, emit_jump, emit_simple, case_kind,
  emit_entries, emit_no_match, emit_uncaught, add_finally_entry, finish_finally, enter,
}
use aegify.Ir.Cfg.Grows.{
  Grows, grow_on, stay, Result, add_edge-Grows, add_edge-Member, link_tails-Grows, join_tails-Grows,
  if-Grows, finish_finally-Grows, emit_entries-Grows,
}

-- A property of nodes that holds at the source of every control flow edge of the graph whose target
-- has it.
pub record IsBackward (whole : Graph) (P : NodeId → Type 0) : Type 0 where
  pub back : (e : CfgEdge) → Member e whole.edges → e.overlay ≡ "cfg" → P e.target → P e.source

module _ (whole : Graph) (P : NodeId → Type 0) (b : IsBackward whole P) where
  abbrev pub TailsEnd : List Tail → Type 0
  TailsEnd = All (λ t. P t.0)

  -- An edge of the second graph is one of the first, or leads to a node with the property.
  pub record Ends (g h : Graph) : Type 0 where
    pub ends : (e : CfgEdge) → Member e h.edges → Member e g.edges ⊎ P e.target

  pub none_new : (g h : Graph) → g.edges ≡ h.edges → Ends g h
  none_new g h p = record { ends = λ e m. inl (subst (Member e) (sym p) m) }

  pub end_on : {g h k : Graph} → Ends g h → Ends h k → Ends g k
  end_on p q = record { ends = λ e m. elim (q.ends e m) [ inl n ↦ p.ends e n | inr r ↦ inr r ] }

  last_member : (e d : CfgEdge) → Member e (d ∷ []) → P d.target → P e.target
  last_member e d (Member.here p) h = subst (λ x. P x.target) (sym p) h
  last_member e d (Member.there m) h = absurd (elim m [ ])

  pub add_edge-Ends : (e : CfgEdge) (g : Graph) → P e.target → Ends g (add_edge e g)
  unfolding add_edge
  add_edge-Ends e g h = record {
    ends = λ x m. elim (append-cases x g.edges (e ∷ []) m) [
      | inl n ↦ inl n
      | inr n ↦ inr (last_member x e n h)
    ];
  }

  pub add_node-Ends : (x : NodeId) (a : Attributes) (g : Graph) → Ends g (add_node x a g)
  unfolding add_node
  add_node-Ends x a g = none_new _ _ refl

  pub add_join-Ends : (x : NodeId) (g : Graph) → Ends g (add_join x g)
  unfolding add_join
  add_join-Ends x g = add_node-Ends x _ g

  -- The source of an edge that was added to a part of the graph.
  pub source_ends :
      (kind : String) (s t : NodeId) (g : Graph)
      → Grows (add_edge (cfg kind s t) g) whole
      → P t
      → P s
  source_ends kind s t g k h =
      b.back (cfg kind s t) (k.keeps _ (add_edge-Member (cfg kind s t) g)) refl h

  pub link_tails-Ends :
      (x : NodeId) (tails : List Tail) (g : Graph)
      → Grows (link_tails x tails g) whole
      → P x
      → TailsEnd tails × Ends g (link_tails x tails g)
  unfolding link_tails
  link_tails-Ends x [] g k h = (tt, none_new _ _ refl)
  link_tails-Ends x ((t, kind) ∷ tails) g k h =
      let (rest, new) = link_tails-Ends x tails (add_edge (cfg kind t x) g) k h in
      (
        (source_ends kind t x g (grow_on (link_tails-Grows x tails _) k) h, rest),
        end_on (add_edge-Ends _ g h) new,
      )

  pub join_tails-Ends :
      (kind : String) (x : NodeId) (tails : List Tail) (g : Graph)
      → Grows (join_tails kind x tails g) whole
      → P x
      → TailsEnd tails × Ends g (join_tails kind x tails g)
  unfolding join_tails
  join_tails-Ends kind x [] g k h = (tt, none_new _ _ refl)
  join_tails-Ends kind x ((t, l) ∷ tails) g k h =
      let (rest, new) = join_tails-Ends kind x tails (add_edge (cfg kind t x) g) k h in
      (
        (source_ends kind t x g (grow_on (join_tails-Grows kind x tails _) k) h, rest),
        end_on (add_edge-Ends _ g h) new,
      )

  pub join_nodes-Ends :
      (kind : String) (x : NodeId) (ns : List NodeId) (g : Graph)
      → P x
      → Ends g (join_nodes kind x ns g)
  unfolding join_nodes
  join_nodes-Ends kind x [] g h = none_new _ _ refl
  join_nodes-Ends kind x (n ∷ ns) g h = end_on (add_edge-Ends _ g h) (join_nodes-Ends kind x ns _ h)

  abbrev pub OptionEnds : Option NodeId → Type 0
  OptionEnds none = Unit
  OptionEnds (some x) = P x

  -- The places where a statement may jump to.
  pub record TargetsEnd (c : Targets) : Type 0 where
    pub at_exit : P (function_part Role.exit)
    pub at_break : OptionEnds c.break_target
    pub at_continue : OptionEnds c.continue_target
    pub at_terminal : OptionEnds c.terminal_target

  either_end :
      (o : Option NodeId) (x : NodeId) → P x → OptionEnds o → P (elim o [ none ↦ x | some y ↦ y ])
  either_end none x p q = p
  either_end (some y) x p q = q

  pub terminal-Ends : (c : Targets) → TargetsEnd c → P (terminal c)
  terminal-Ends c t = either_end c.terminal_target (function_part Role.exit) t.at_exit t.at_terminal

  -- A statement's result, once the statement has been entered.
  abbrev Completes : Info → Graph → Result → Type 0
  Completes i g r = TailsEnd r.0 → Grows r.1 whole → P (statement_id i) × Ends g r.1

  if-Completes :
      (t : Bool) (i : Info) (g : Graph) (r q : Result)
      → Completes i g r
      → Completes i g q
      → Completes i g (if t then r else q)
  if-Completes true i g r q p s = p
  if-Completes false i g r q p s = s

  jump-Completes :
      (kind : String) (i : Info) (x : NodeId) (g : Graph) → P x → Completes i g (jump kind i x g)
  jump-Completes kind i x g h out k =
      (source_ends kind (statement_id i) x g k h, add_edge-Ends _ g h)

  emit_jump-Completes :
      (syntax kind : String) (o : Option NodeId) (i : Info) (g : Graph) (r : Result)
      → OptionEnds o
      → Completes i g r
      → Completes i g (emit_jump syntax kind o i g r)
  unfolding emit_jump
  emit_jump-Completes syntax kind none i g r h p = p
  emit_jump-Completes syntax kind (some x) i g r h p =
      if-Completes (str_eq i.kind syntax) i g _ r (jump-Completes kind i x g h) p

  emit_terminal-Completes :
      (c : Targets) (i : Info) (g : Graph) → TargetsEnd c → Completes i g (emit_terminal c i g)
  unfolding emit_terminal
  emit_terminal-Completes c i g t =
      if-Completes (str_mem i.kind function_terminal_types) i g _ _
        (jump-Completes _ i (terminal c) g (terminal-Ends c t))
        (λ out k. (out.0, none_new _ _ refl))

  pub emit_simple-Completes :
      (c : Targets) (i : Info) (g : Graph) → TargetsEnd c → Completes i g (emit_simple c i g)
  unfolding emit_simple
  emit_simple-Completes c i g t = emit_jump-Completes _ _ c.break_target i g _ t.at_break (
      emit_jump-Completes _ _ c.continue_target i g _ t.at_continue
        (emit_terminal-Completes c i g t))

  -- The entries of the cases from the given number on.
  abbrev pub CasesEnd : Info → ℕ → Cases → Type 0
  CasesEnd i n no_case = Unit
  CasesEnd i n (case d s cs) = P (id_of Role.case_entry i n) × CasesEnd i (suc n) cs

  pub emit_entries-Ends :
      (i : Info) (n : ℕ) (cs : Cases) (g : Graph) → CasesEnd i n cs → Ends g (emit_entries i n cs g)
  unfolding emit_entries
  emit_entries-Ends i n no_case g h = none_new _ _ refl
  emit_entries-Ends i n (case d s cs) g h =
      end_on (add_join-Ends _ g)
        (end_on (add_edge-Ends _ _ h.0) (emit_entries-Ends i (suc n) cs _ h.1))

  -- The statement goes on to its first case.
  pub entries_source :
      (i : Info) (d : Bool) (s : Statements) (cs : Cases) (g : Graph)
      → Grows (emit_entries i 0 (case d s cs) g) whole
      → P (id_of Role.case_entry i 0)
      → P (statement_id i)
  unfolding emit_entries
  entries_source i d s cs g k h =
      source_ends (case_kind d) (statement_id i) (id_of Role.case_entry i 0) _
        (grow_on (emit_entries-Grows i 1 cs _) k) h

  pub if-Ends : (t : Bool) (g h k : Graph) → Ends g h → Ends g k → Ends g (if t then h else k)
  if-Ends true g h k p q = p
  if-Ends false g h k p q = q

  pub emit_no_match-Ends :
      (i : Info) (g : Graph) → P (id_of Role.switch_exit i 0) → Ends g (emit_no_match i g)
  unfolding emit_no_match
  emit_no_match-Ends i g h = if-Ends _ g g _ (none_new _ _ refl) (add_edge-Ends _ g h)

  pub emit_uncaught-Ends :
      (c : Targets) (k : Catches) (ns : List NodeId) (g : Graph)
      → TargetsEnd c
      → Ends g (emit_uncaught c k ns g)
  unfolding emit_uncaught
  emit_uncaught-Ends c no_catch ns g t = join_nodes-Ends _ (terminal c) ns g (terminal-Ends c t)
  emit_uncaught-Ends c (catch s k) ns g t = none_new _ _ refl

  abbrev pub FinallyEnds : Info → Clause → Type 0
  FinallyEnds i absent = Unit
  FinallyEnds i (present s) = P (id_of Role.finally_entry i 0)

  pub finally_entry-Ends : (i : Info) (f : Clause) (g : Graph) → Ends g (add_finally_entry i f g)
  unfolding add_finally_entry
  finally_entry-Ends i absent g = none_new _ _ refl
  finally_entry-Ends i (present s) g = add_join-Ends _ g

  pub finish_finally-Ends :
      (c : Targets) (i : Info) (r : Bool) (tails : List Tail) (g : Graph)
      → TargetsEnd c
      → P (id_of Role.try_exit i 0)
      → Grows (finish_finally c i r tails g) whole
      → TailsEnd tails × Ends g (finish_finally c i r tails g)
  unfolding finish_finally
  finish_finally-Ends c i r [] g t h k = (tt, none_new _ _ refl)
  finish_finally-Ends c i r ((x, l) ∷ tails) g t h k =
      let (rest, new) = finish_finally-Ends c i r tails _ t h k in
      (
        (
          source_ends "finally-complete" x (id_of Role.try_exit i 0) g
              (grow_on (if-Grows r _ _ _ (add_edge-Grows _ _) (stay _ _ refl))
                (grow_on (finish_finally-Grows c i r tails _) k))
              h,
          rest,
        ),
        end_on (add_edge-Ends _ g h) (
            end_on (if-Ends r _ _ _ (add_edge-Ends _ _ (terminal-Ends c t)) (none_new _ _ refl))
              new),
      )

  pub enter-Ends :
      (data_facts : List ℕ → Facts) (i : Info) (text : List ℕ) (tails : List Tail) (g : Graph)
      → Grows (enter data_facts i text tails g) whole
      → P (statement_id i)
      → TailsEnd tails × Ends g (enter data_facts i text tails g)
  unfolding enter
  enter-Ends data_facts i text tails g k h =
      let (all, new) = link_tails-Ends (statement_id i) tails _ k h in
      (all, end_on (add_node-Ends _ _ g) (end_on (add_edge-Ends _ _ h) new))
