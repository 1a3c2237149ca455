-- ===== src/Ir/Cfg/Drains.antt =====
-- What `_emit_sequence`, `_emit_try` and `_emit_switch` of scanner/src/aegify/ir/program_graph.py make
-- of a property that goes backwards along the control flow.
use aegify.Base.{ℕ, suc, refl, Bool, true, false, some, List, [], ◌∷◌, ◌++◌}
use aegify.Ir.Cfg.Nodes.{
  Info, Statement, simple, branch, loop_of, switch, try, Statements, end, ◌⨾◌, Clause, absent,
  present, Cases, no_case, case, Catches, no_catch, catch,
}
use aegify.Ir.Cfg.Graph.{Role, NodeId, id_of, Facts, Graph, Tail}
use aegify.Ir.Cfg.Emit.{
  Targets, statement_id, follow, inner_targets, emit_sequence, emit_statement, emit_clause,
  emit_cases, emit_catches, emit_finally,
}
use aegify.Ir.Cfg.Grows.{
  Grows, grow_on, add_edge-Grows, add_join-Grows, emit_entries-Grows, finally_entry-Grows,
  join_tails-Grows, emit_no_match-Grows, emit_uncaught-Grows, emit_simple-Grows, sequence-Grows,
  clause-Grows, cases-Grows, catches-Grows, finally-Grows, finish_finally-Grows,
}
use aegify.Ir.Cfg.Steps

module _ (whole : Graph) (P : NodeId → Type 0) (b : Steps.IsBackward whole P)
    (data_facts : List ℕ → Facts) where
  abbrev TailsEnd : List Tail → Type 0
  TailsEnd = Steps.TailsEnd whole P b

  abbrev Ends : Graph → Graph → Type 0
  Ends = Steps.Ends whole P b

  abbrev TargetsEnd : Targets → Type 0
  TargetsEnd = Steps.TargetsEnd whole P b

  split_tails : (xs ys : List Tail) → TailsEnd (xs ++ ys) → TailsEnd xs × TailsEnd ys
  split_tails [] ys h = (tt, h)
  split_tails (x ∷ xs) ys h = let (p, q) = split_tails xs ys h.1 in ((h.0, p), q)

  join_ends : (xs ys : List Tail) → TailsEnd xs → TailsEnd ys → TailsEnd (xs ++ ys)
  join_ends [] ys p q = q
  join_ends (x ∷ xs) ys p q = (p.0, join_ends xs ys p.1 q)

  inner-Ends :
      (c : Targets) (i : Info) (f : Clause)
      → TargetsEnd c
      → Steps.FinallyEnds whole P b i f
      → TargetsEnd (inner_targets c i f)
  inner-Ends c i absent t h = t
  inner-Ends c i (present s) t h = record {
    at_exit = t.at_exit;
    at_break = t.at_break;
    at_continue = t.at_continue;
    at_terminal = h;
  }

  -- Where a case that falls through goes to.
  follow-Ends :
      (i : Info) (n : ℕ) (f : Bool) (cs : Cases)
      → P (id_of Role.switch_exit i 0)
      → Steps.CasesEnd whole P b i (suc n) cs
      → P (follow i n f cs).1
  follow-Ends i n f no_case h k = h
  follow-Ends i n true (case d s cs) h k = k.0
  follow-Ends i n false (case d s cs) h k = h

  mutual
    unfolding emit_sequence

    pub sequence-Ends :
        (c : Targets) (s : Statements) (tails : List Tail) (g : Graph)
        → TargetsEnd c
        → TailsEnd (emit_sequence data_facts c s tails g).0
        → Grows (emit_sequence data_facts c s tails g).1 whole
        → TailsEnd tails × Ends g (emit_sequence data_facts c s tails g).1
    sequence-Ends c end tails g t out k = (out, Steps.none_new whole P b _ _ refl)
    sequence-Ends c (x ⨾ s) tails g t out k =
        let later =
          sequence-Ends c s (emit_statement data_facts c x tails g).0
            (emit_statement data_facts c x tails g).1 t out k in
        let now =
          statement-Ends c x tails g t later.0 (grow_on (sequence-Grows data_facts c s _ _) k) in
        (now.0, Steps.end_on whole P b now.1 later.1)

    statement-Ends :
        (c : Targets) (x : Statement) (tails : List Tail) (g : Graph)
        → TargetsEnd c
        → TailsEnd (emit_statement data_facts c x tails g).0
        → Grows (emit_statement data_facts c x tails g).1 whole
        → TailsEnd tails × Ends g (emit_statement data_facts c x tails g).1
    statement-Ends c (simple i) tails g t out k =
        let rest = Steps.emit_simple-Completes whole P b c i _ t out k in
        let first =
          Steps.enter-Ends whole P b data_facts i i.text tails g
            (grow_on (emit_simple-Grows c i _) k) rest.0 in
        (first.0, Steps.end_on whole P b first.1 rest.1)
    statement-Ends c (branch i text s f) tails g t out k =
        let parts = split_tails _ _ out in
        let no' = clause-Ends c f ((statement_id i, "false") ∷ []) _ t parts.1 k in
        let k1 = grow_on (clause-Grows data_facts c f _ _) k in
        let yes' = sequence-Ends c s ((statement_id i, "true") ∷ []) _ t parts.0 k1 in
        let first =
          Steps.enter-Ends whole P b data_facts i text tails g
            (grow_on (sequence-Grows data_facts c s _ _) k1) yes'.0.0 in
        (first.0, Steps.end_on whole P b first.1 (Steps.end_on whole P b yes'.1 no'.1))
    statement-Ends c (loop_of i text s) tails g t out k =
        let exit = id_of Role.loop_exit i 0 in
        let kb = grow_on (join_tails-Grows _ _ _ _) k in
        let ke = grow_on (sequence-Grows data_facts _ s _ _) kb in
        let at = Steps.source_ends whole P b "false" (statement_id i) exit _ ke out.0 in
        let looped = Steps.join_tails-Ends whole P b "loop-back" (statement_id i) _ _ k at in
        let body =
          sequence-Ends
            (record c { break_target = some exit; continue_target = some (statement_id i) }) s
            ((statement_id i, "true") ∷ []) _
            (record {
              at_exit = t.at_exit;
              at_break = out.0;
              at_continue = at;
              at_terminal = t.at_terminal;
            })
            looped.0 kb in
        let first =
          Steps.enter-Ends whole P b data_facts i text tails g
            (grow_on (add_join-Grows _ _) (grow_on (add_edge-Grows _ _) ke)) at in
        (
          first.0,
          Steps.end_on whole P b first.1 (
              Steps.end_on whole P b (Steps.add_join-Ends whole P b _ _) (
                Steps.end_on whole P b (Steps.add_edge-Ends whole P b _ _ out.0)
                  (Steps.end_on whole P b body.1 looped.1))),
        )
    statement-Ends c (switch i text f no_case) tails g t out k =
        let at =
          Steps.source_ends whole P b "no-match" (statement_id i) (id_of Role.switch_exit i 0) _ k
            out.0 in
        let k1 = grow_on (add_edge-Grows _ _) k in
        let first =
          Steps.enter-Ends whole P b data_facts i text tails g (grow_on (add_join-Grows _ _) k1)
            at in
        (
          first.0,
          Steps.end_on whole P b first.1 (
              Steps.end_on whole P b (Steps.add_join-Ends whole P b _ _)
                (Steps.add_edge-Ends whole P b _ _ out.0)),
        )
    statement-Ends c (switch i text f (case d s cs)) tails g t out k =
        let kc = grow_on (emit_no_match-Grows i _) k in
        let later =
          cases-Ends (record c { break_target = some (id_of Role.switch_exit i 0) }) i 0 f
            (case d s cs) _
            (record {
              at_exit = t.at_exit;
              at_break = out.0;
              at_continue = t.at_continue;
              at_terminal = t.at_terminal;
            })
            out.0 kc in
        let kn = grow_on (cases-Grows data_facts _ i 0 f (case d s cs) _) kc in
        let at = Steps.entries_source whole P b i d s cs _ kn later.0.0 in
        let first =
          Steps.enter-Ends whole P b data_facts i text tails g
            (grow_on (add_join-Grows _ _) (grow_on (emit_entries-Grows i 0 (case d s cs) _) kn))
            at in
        (
          first.0,
          Steps.end_on whole P b first.1 (
              Steps.end_on whole P b (Steps.add_join-Ends whole P b _ _) (
                Steps.end_on whole P b
                  (Steps.emit_entries-Ends whole P b i 0 (case d s cs) _ later.0)
                  (Steps.end_on whole P b later.1 (Steps.emit_no_match-Ends whole P b i _ out.0)))),
        )
    statement-Ends c (try i s m f l) tails g t out k =
        let fin = finally-Ends c i _ _ l _ t out.0 k in
        let ti = inner-Ends c i l t fin.1 in
        let kn = grow_on (finally-Grows data_facts c i _ _ l _) k in
        let parts = split_tails _ _ fin.0 in
        let after = clause-Ends (inner_targets c i l) f _ _ ti parts.0 kn in
        let ku = grow_on (clause-Grows data_facts _ f _ _) kn in
        let kk = grow_on (emit_uncaught-Grows _ m _ _) ku in
        let caught = catches-Ends (inner_targets c i l) i 0 _ m _ ti parts.1 kk in
        let kr = grow_on (catches-Grows data_facts _ i 0 _ m _) kk in
        let body =
          sequence-Ends (inner_targets c i l) s ((statement_id i, "try") ∷ []) _ ti after.0 kr in
        let ks = grow_on (sequence-Grows data_facts _ s _ _) kr in
        let first =
          Steps.enter-Ends whole P b data_facts i i.text tails g
            (grow_on (add_join-Grows _ _) (grow_on (finally_entry-Grows i l _) ks)) body.0.0 in
        (
          first.0,
          Steps.end_on whole P b first.1 (
              Steps.end_on whole P b
                (Steps.end_on whole P b (Steps.add_join-Ends whole P b _ _)
                  (Steps.finally_entry-Ends whole P b i l _))
                (Steps.end_on whole P b body.1 (
                  Steps.end_on whole P b caught (
                    Steps.end_on whole P b
                      (Steps.emit_uncaught-Ends whole P b (inner_targets c i l) m _ _ ti)
                      (Steps.end_on whole P b after.1 fin.2))))),
        )

    clause-Ends :
        (c : Targets) (f : Clause) (tails : List Tail) (g : Graph)
        → TargetsEnd c
        → TailsEnd (emit_clause data_facts c f tails g).0
        → Grows (emit_clause data_facts c f tails g).1 whole
        → TailsEnd tails × Ends g (emit_clause data_facts c f tails g).1
    clause-Ends c absent tails g t out k = (out, Steps.none_new whole P b _ _ refl)
    clause-Ends c (present s) tails g t out k = sequence-Ends c s tails g t out k

    cases-Ends :
        (c : Targets) (i : Info) (n : ℕ) (f : Bool) (cs : Cases) (g : Graph)
        → TargetsEnd c
        → P (id_of Role.switch_exit i 0)
        → Grows (emit_cases data_facts c i n f cs g) whole
        → Steps.CasesEnd whole P b i n cs × Ends g (emit_cases data_facts c i n f cs g)
    cases-Ends c i n f no_case g t h k = (tt, Steps.none_new whole P b _ _ refl)
    cases-Ends c i n f (case d s cs) g t h k =
        let later = cases-Ends c i (suc n) f cs _ t h k in
        let k1 = grow_on (cases-Grows data_facts c i (suc n) f cs _) k in
        let joined =
          Steps.join_tails-Ends whole P b (follow i n f cs).0 (follow i n f cs).1 _ _ k1
            (follow-Ends i n f cs h later.0) in
        let body =
          sequence-Ends c s ((id_of Role.case_entry i n, "case-body") ∷ []) g t joined.0
            (grow_on (join_tails-Grows _ _ _ _) k1) in
        (
          (body.0.0, later.0),
          Steps.end_on whole P b body.1 (Steps.end_on whole P b joined.1 later.1),
        )

    catches-Ends :
        (c : Targets) (i : Info) (n : ℕ) (inside : List NodeId) (m : Catches) (g : Graph)
        → TargetsEnd c
        → TailsEnd (emit_catches data_facts c i n inside m g).0
        → Grows (emit_catches data_facts c i n inside m g).1 whole
        → Ends g (emit_catches data_facts c i n inside m g).1
    catches-Ends c i n inside no_catch g t out k = Steps.none_new whole P b _ _ refl
    catches-Ends c i n inside (catch s m) g t out k =
        let parts = split_tails _ _ out in
        let later = catches-Ends c i (suc n) inside m _ t parts.1 k in
        let body =
          sequence-Ends c s ((id_of Role.catch_entry i n, "catch") ∷ []) _ t parts.0
            (grow_on (catches-Grows data_facts c i (suc n) inside m _) k) in
        Steps.end_on whole P b (Steps.add_join-Ends whole P b _ g) (
          Steps.end_on whole P b (Steps.add_edge-Ends whole P b _ _ body.0.0) (
            Steps.end_on whole P b (Steps.join_nodes-Ends whole P b "exception" _ inside _ body.0.0)
              (Steps.end_on whole P b body.1 later)))

    finally-Ends :
        (c : Targets) (i : Info) (u : Bool) (tails : List Tail) (f : Clause) (g : Graph)
        → TargetsEnd c
        → P (id_of Role.try_exit i 0)
        → Grows (emit_finally data_facts c i u tails f g) whole
        → TailsEnd tails
          × Steps.FinallyEnds whole P b i f
          × Ends g (emit_finally data_facts c i u tails f g)
    finally-Ends c i u tails absent g t h k =
        let joined =
          Steps.join_tails-Ends whole P b "try-complete" (id_of Role.try_exit i 0) tails g k h in
        (joined.0, tt, joined.1)
    finally-Ends c i u tails (present s) g t h k =
        let fin = Steps.finish_finally-Ends whole P b c i _ _ _ t h k in
        let kr = grow_on (finish_finally-Grows c i _ _ _) k in
        let body =
          sequence-Ends c s ((id_of Role.finally_entry i 0, "finally-body") ∷ []) _ t fin.0 kr in
        let kj = grow_on (sequence-Grows data_facts _ s _ _) kr in
        let joined =
          Steps.join_tails-Ends whole P b "finally" (id_of Role.finally_entry i 0) tails g kj
            body.0.0 in
        (joined.0, body.0.0, Steps.end_on whole P b joined.1 (Steps.end_on whole P b body.1 fin.1))
