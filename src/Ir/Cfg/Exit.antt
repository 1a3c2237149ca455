-- ===== src/Ir/Cfg/Exit.antt =====
-- Where control can go in the graph that `_build_function` of
-- scanner/src/aegify/ir/program_graph.py builds.
use aegify.Base.{ℕ, ◌≡◌, ◌≢◌, refl, subst, sym, ap, inl, inr, String, List, [], ◌∷◌, Member}
use aegify.Ir.Cfg.Nodes.{Node}
use aegify.Ir.Cfg.Statements.{body_statements}
use aegify.Ir.Cfg.Graph.{Role, NodeId, function_part, Facts, CfgEdge, Graph, add_node, add_edge}
use aegify.Ir.Cfg.Emit.{contains, prepare, build_function, no_targets, semantic}
use aegify.Ir.Cfg.Grows.{stay, link_tails-Grows}
use aegify.Ir.Cfg.Steps
use aegify.Ir.Cfg.Drains.{sequence-Ends}

-- A path of control flow edges to the node `t`.
pub data Reaches (g : Graph) (t : NodeId) : NodeId → Type 0 where
  arrived : Reaches g t t
  go_on :
      (e : CfgEdge)
      → Member e g.edges
      → e.overlay ≡ "cfg"
      → Reaches g t e.target
      → Reaches g t e.source

abbrev pub empty_graph : Graph
empty_graph = record { nodes = []; edges = [] }

prepared_edges :
    (data_facts : List ℕ → Facts) (parameters : List String)
    → (prepare data_facts parameters empty_graph).edges
      ≡ semantic "declared-in" (function_part Role.function) (function_part Role.file)
        ∷ semantic "declares" (function_part Role.file) (function_part Role.function)
        ∷ contains (function_part Role.entry)
        ∷ []
unfolding prepare add_edge add_node
prepared_edges data_facts parameters = refl

module _ (data_facts : List ℕ → Facts) (parameters : List String) (n : Node) where
  whole : Graph
  whole = build_function data_facts parameters n empty_graph

  AtExit : NodeId → Type 0
  unfolding whole
  AtExit = Reaches whole (function_part Role.exit)

  backward : Steps.IsBackward whole AtExit
  unfolding AtExit
  backward = record { back = go_on }

  targets-Ends : Steps.TargetsEnd whole AtExit backward no_targets
  unfolding AtExit
  targets-Ends = record { at_exit = arrived; at_break = tt; at_continue = tt; at_terminal = tt }

  ends :
      AtExit (function_part Role.entry)
      × Steps.Ends whole AtExit backward (prepare data_facts parameters empty_graph) whole
  unfolding whole build_function AtExit
  ends =
      let s = body_statements n in
      let linked =
        Steps.link_tails-Ends whole AtExit backward (function_part Role.exit) _ _ (stay _ _ refl)
          arrived in
      let body =
        sequence-Ends whole AtExit backward data_facts no_targets s
          ((function_part Role.entry, "next") ∷ []) (prepare data_facts parameters empty_graph)
          targets-Ends linked.0 (link_tails-Grows (function_part Role.exit) _ _) in
      (body.0.0, Steps.end_on whole AtExit backward body.1 linked.1)

  first_edges :
      (e : CfgEdge)
      → Member e (
          semantic "declared-in" (function_part Role.function) (function_part Role.file)
          ∷ semantic "declares" (function_part Role.file) (function_part Role.function)
          ∷ contains (function_part Role.entry)
          ∷ [])
      → e.overlay ≢ "semantic"
      → AtExit e.target
  first_edges e (Member.here p) h = absurd (h (ap (λ (x : CfgEdge). x.overlay) p))
  first_edges e (Member.there (Member.here p)) h = absurd (h (ap (λ (x : CfgEdge). x.overlay) p))
  first_edges e (Member.there (Member.there (Member.here p))) h =
      subst (λ (x : CfgEdge). AtExit x.target) (sym p) ends.0
  first_edges e (Member.there (Member.there (Member.there m))) h = absurd (elim m [ ])

-- In the graph of a function, control can go from the entry, from every statement and from every node
-- that a control flow edge leads to, on to the exit: no path gets stuck.
pub build_function-Reaches :
    (data_facts : List ℕ → Facts) (parameters : List String) (n : Node)
    → Reaches
        (build_function data_facts parameters n empty_graph)
        (function_part Role.exit)
        (function_part Role.entry)
      × ((e : CfgEdge)
          → Member e (build_function data_facts parameters n empty_graph).edges
          → e.overlay ≢ "semantic"
          → Reaches
              (build_function data_facts parameters n empty_graph)
              (function_part Role.exit)
              e.target)
unfolding AtExit whole
build_function-Reaches data_facts parameters n = (
  (ends data_facts parameters n).0,
  λ e m h. elim ((ends data_facts parameters n).1.ends e m) [
    | inl first ↦
        first_edges data_facts parameters n e
          (subst (Member e) (prepared_edges data_facts parameters) first) h
    | inr later ↦ later
  ],
)
