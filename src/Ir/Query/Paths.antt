-- ===== src/Ir/Query/Paths.antt =====
-- What `context_balanced_path` and `context_balanced_reachable` of scanner/src/aegify/ir/query.py
-- answer.
use aegify.Base.{
  ℤ, pos, negsuc, ℕ, zero, suc, ◌≡◌, ◌≢◌, ◌↔◌, refl, sym, ap, ◌∙◌, subst, Bool, true, not, ◌||◌,
  String, Option, List, [], ◌∷◌, arith, Member, Bool-cases, ◌⊎◌, inl, inr, Result, ok, raise,
  has_key,
}
use aegify.Ir.Query.Edges.{Edge, selected_overlays}
use aegify.Ir.Query.Context.{
  ContextState, ContextState-eq, state_beq_iff, Query, QueryError, broken_chain, accepts, begin,
  first_search, GraphView, context_balanced_path, context_balanced_reachable,
}
use aegify.Ir.Query.Walks.{Walk}
use aegify.Ir.Query.Sound.{IsKept, IsAnswer, IsBalanced, search-IsAnswer}
use aegify.Ir.Query.Complete.{IsExplored, NoWalk, search-NoWalk}

-- A balanced walk from the source, with an empty stack, to a state that the query accepts.
pub record Reaches (g : GraphView) (source target : String) (overlays : Option (List String))
    (require_empty_stack : Bool) : Type 0 where
  pub end : ContextState
  pub nodes : List String
  pub walk : Walk g.out_edges (selected_overlays overlays) (begin source) end nodes
  pub accepted : accepts target require_empty_stack end ≡ true

begin-IsKept :
    (out_edges : String → List Edge) (overlays : List String) (s : ContextState)
    → IsKept out_edges overlays s (first_search s)
begin-IsKept out_edges overlays s = record {
  linked = (refl, refl, tt);
  queued = (rw ((state_beq_iff s s).1 refl) refl, tt);
}

begin-IsExplored :
    (out_edges : String → List Edge) (q : Query) (s : ContextState)
    → IsExplored out_edges q (first_search s) (s ∷ [])
begin-IsExplored out_edges q s t k = inl (Member.here (only t k))
  where
    only : (t : ContextState) → has_key t (first_search s).predecessor ≡ true → t ≡ s
    only t k = sym ((state_beq_iff s t).0 (ground arith))

module _ (g : GraphView) (source target : String) (overlays : Option (List String)) (depth n : ℕ)
    (require_empty_stack : Bool) where
  q : Query
  q = record {
    target = target;
    overlays = selected_overlays overlays;
    max_call_depth = depth;
    require_empty_stack = require_empty_stack;
  }

  answer :
      IsAnswer g.out_edges q (begin source) (
        context_balanced_path g source target overlays
          (pos depth)
          (pos (suc n))
          require_empty_stack)
  unfolding context_balanced_path q
  answer = elim (Bool-cases (not (g.has_node source) || not (g.has_node target))) [
    | inl out ↦ rw out tt
    | inr within ↦ rw within (
        search-IsAnswer g.out_edges q (begin source) (suc n) (first_search (begin source))
          (begin source ∷ [])
          (begin-IsKept g.out_edges (selected_overlays overlays) (begin source)))
  ]

  no_walk :
      g.has_node source ≡ true
      → g.has_node target ≡ true
      → context_balanced_path g source target overlays (pos depth) (pos (suc n)) require_empty_stack
        ≡ ok []
      → NoWalk g.out_edges q (begin source)
  unfolding context_balanced_path q
  no_walk s t h =
      search-NoWalk g.out_edges q (begin source) (suc n) (first_search (begin source))
        (begin source ∷ []) (rw ((state_beq_iff (begin source) (begin source)).1 refl) refl)
        (begin-IsExplored g.out_edges q (begin source)) (rw (s, t) at h)

-- A path that `context_balanced_path` returns is a balanced walk from the source, of exactly the
-- nodes that it lists, to the target.
pub context_balanced_path_sound :
    (g : GraphView) (source target : String) (overlays : Option (List String))
    (depth max_states : ℤ) (require_empty_stack : Bool) (node : String) (nodes : List String)
    → context_balanced_path g source target overlays depth max_states require_empty_stack
      ≡ ok (node ∷ nodes)
    → (end : ContextState) × Walk g.out_edges
        (selected_overlays overlays)
        (begin source)
        end
        (node ∷ nodes)
      × (accepts target require_empty_stack end ≡ true)
unfolding context_balanced_path q
context_balanced_path_sound g source target overlays (negsuc d) max_states r node nodes h =
    absurd (cc)
context_balanced_path_sound g source target overlays (pos d) (negsuc n) r node nodes h = absurd (cc)
context_balanced_path_sound g source target overlays (pos d) (pos zero) r node nodes h = absurd (cc)
context_balanced_path_sound g source target overlays (pos d) (pos (suc n)) r node nodes h =
    let b : IsBalanced g.out_edges (q g source target overlays d n r) (begin source)
        (node ∷ nodes) =
      subst (IsAnswer g.out_edges (q g source target overlays d n r) (begin source)) h
        (answer g source target overlays d n r) in
    (b.end, b.walk, b.accepted)

-- The search never loses the chain of predecessors: no query ends in a missing key or an endless
-- reconstruction.
pub context_balanced_path-ne-broken_chain :
    (g : GraphView) (source target : String) (overlays : Option (List String))
    (depth max_states : ℤ) (require_empty_stack : Bool)
    → context_balanced_path g source target overlays depth max_states require_empty_stack
      ≢ raise broken_chain
unfolding context_balanced_path
context_balanced_path-ne-broken_chain g source target overlays (negsuc d) max_states r h = cc
context_balanced_path-ne-broken_chain g source target overlays (pos d) (negsuc n) r h = cc
context_balanced_path-ne-broken_chain g source target overlays (pos d) (pos zero) r h = cc
context_balanced_path-ne-broken_chain g source target overlays (pos d) (pos (suc n)) r h =
    subst (IsAnswer g.out_edges (q g source target overlays d n r) (begin source)) h
      (answer g source target overlays d n r)

nodes_cases :
    (nodes : List String) → (nodes ≡ []) ⊎ ((n : String) × (ns : List String) × (nodes ≡ n ∷ ns))
nodes_cases [] = inl refl
nodes_cases (n ∷ ns) = inr (n, ns, refl)

Result-cases :
    (r : Result QueryError (List String))
    → ((nodes : List String) × (r ≡ ok nodes)) ⊎ ((e : QueryError) × (r ≡ raise e))
Result-cases (ok nodes) = inl (nodes, refl)
Result-cases (raise e) = inr (e, refl)

unreached :
    (g : GraphView) (source target : String) (overlays : Option (List String))
    (depth max_states : ℤ) (r : Bool)
    → g.has_node source ≡ true
    → g.has_node target ≡ true
    → context_balanced_path g source target overlays depth max_states r ≡ ok []
    → ¬ Reaches g source target overlays r
unfolding context_balanced_path q
unreached g source target overlays (negsuc d) max_states r s t h w = cc
unreached g source target overlays (pos d) (negsuc n) r s t h w = cc
unreached g source target overlays (pos d) (pos zero) r s t h w = cc
unreached g source target overlays (pos d) (pos (suc n)) r s t h w =
    cc (w.accepted, no_walk g source target overlays d n r s t h w.end w.nodes w.walk)

-- Where `context_balanced_reachable` answers, its answer is exact for nodes of the graph: it says
-- true if and only if there is a balanced walk, at any call depth.
pub context_balanced_reachable-decides :
    (g : GraphView) (source target : String) (overlays : Option (List String))
    (depth max_states : ℤ) (require_empty_stack answer : Bool)
    → g.has_node source ≡ true
    → g.has_node target ≡ true
    → context_balanced_reachable g source target overlays depth max_states require_empty_stack
      ≡ ok answer
    → (answer ≡ true) ↔ Reaches g source target overlays require_empty_stack
unfolding context_balanced_reachable
context_balanced_reachable-decides g source target overlays depth max_states r answer s t h =
    elim (Result-cases (context_balanced_path g source target overlays depth max_states r)) [
      | inr (e, p) ↦ absurd (ground arith)
      | inl (nodes, p) ↦ elim (nodes_cases nodes) [
        | inl empty ↦ (
          λ yes'. absurd (ground arith),
          λ w.
              absurd
                (unreached g source target overlays depth max_states r s t (p ∙ ap ok empty) w),
        )
        | inr (n, ns, full) ↦
            let (end, walk, good) =
              context_balanced_path_sound g source target overlays depth max_states r n ns
                (p ∙ ap ok full) in
            (
              λ yes'. record { end = end; nodes = n ∷ ns; walk = walk; accepted = good },
              λ w. ground arith,
            )
      ]
    ]
