-- ===== src/Ir/Query/Context.antt =====
-- `context_balanced_path` of scanner/src/aegify/ir/query.py: a bounded breadth-first search over
-- pairs of a node and a stack of call sites. A stack is kept top first.
use aegify.Base.{
  ℤ, pos, negsuc, ℕ, zero, suc, ◌≡◌, Bool, true, false, not, ◌&&◌, ◌||◌, String, Option, none, some,
  List, [], ◌∷◌, ◌++◌, leb, length, if◌then◌else◌, str_eq, Eq, String-eq, List-eq, list_beq,
  list_beq_iff, find, has_key, sorted, Result, ok, raise, eq_iff, ◌↔◌, arith,
}
use aegify.Ir.Query.Edges.{Edge, is_call, is_return, edge_before, selected_overlays, is_selected}

pub record ContextState : Type 0 where
  pub node : String
  pub stack : List String

abbrev pub state_beq : ContextState → ContextState → Bool
state_beq s t = str_eq s.node t.node && list_beq str_eq s.stack t.stack

pub state_beq_iff : (s t : ContextState) → (state_beq s t ≡ true) ↔ (s ≡ t)
state_beq_iff s t = (
  λ h. ground (arith, eq_iff s.node t.node, list_beq_iff String-eq s.stack t.stack),
  λ h. ground (arith, eq_iff s.node t.node, list_beq_iff String-eq s.stack t.stack),
)

instance abbrev pub ContextState-eq : Eq ContextState
ContextState-eq = record { beq = state_beq; beq_iff = state_beq_iff }

abbrev pub Predecessors : Type 0
Predecessors = List (ContextState × Option ContextState)

-- The variables that the loop over the edges changes.
pub record Search : Type 0 where
  pub pending : List ContextState
  pub predecessor : Predecessors
  pub depth_truncated : Bool

-- What an edge does to a state: it is skipped, cut off at the call depth, or leads on.
pub data Transition : Type 0 where
  skip cut : Transition
  lead : ContextState → Transition

abbrev call_from : ℕ → List String → Edge → Transition
call_from max_call_depth stack e =
    if str_eq e.callsite_id ""
    then skip
    else if leb max_call_depth (length stack)
    then cut
    else lead (record { node = e.target; stack = e.callsite_id ∷ stack })

abbrev return_from : List String → Edge → Transition
return_from [] e = skip
return_from (top ∷ rest) e =
    if str_eq e.callsite_id "" || not (str_eq top e.callsite_id)
    then skip
    else lead (record { node = e.target; stack = rest })

unfoldable pub transition : List String → ℕ → ContextState → Edge → Transition
transition overlays max_call_depth s e =
    if not (is_selected overlays e)
    then skip
    else if is_call e
    then call_from max_call_depth s.stack e
    else if is_return e
    then return_from s.stack e
    else lead (record { node = e.target; stack = s.stack })

abbrev pub visit_to : ContextState → Search → Transition → Search
visit_to s f skip = f
visit_to s f cut = record f { depth_truncated = true }
visit_to s f (lead next) =
    if has_key next f.predecessor
    then f
    else record f { pending = f.pending ++ next ∷ []; predecessor = (next, some s) ∷ f.predecessor }

-- The loop over the sorted edges of a state.
unfoldable pub visit_edges : List String → ℕ → ContextState → Search → List Edge → Search
visit_edges overlays max_call_depth s f [] = f
visit_edges overlays max_call_depth s f (e ∷ es) =
    visit_edges overlays max_call_depth s (visit_to s f (transition overlays max_call_depth s e)) es

pub data QueryError : Type 0 where
  negative_depth no_states : QueryError
  states_exceeded depth_exceeded : QueryError
  -- A key that is missing, or a chain of predecessors without an end: shown not to happen.
  broken_chain : QueryError

-- `_reconstruct_context_path`: the nodes up to the start, in front of those already there. The
-- `while` loop has as many rounds as there are predecessors, at most.
unfoldable pub reconstruct :
    ℕ → Predecessors → Option ContextState → List String → Result QueryError (List String)
reconstruct rounds d none path = ok path
reconstruct zero d (some s) path = raise broken_chain
reconstruct (suc rounds) d (some s) path = elim (find s d) [
  | none ↦ raise broken_chain
  | some parent ↦ reconstruct rounds d parent (s.node ∷ path)
]

-- `node == target and (not require_empty_stack or not stack)`
abbrev is_nil : List String → Bool
is_nil [] = true
is_nil (x ∷ xs) = false

abbrev pub accepts : String → Bool → ContextState → Bool
accepts target require_empty_stack s =
    str_eq s.node target && (not require_empty_stack || is_nil s.stack)

-- A query: what does not change during the search.
pub record Query : Type 0 where
  pub target : String
  pub overlays : List String
  pub max_call_depth : ℕ
  pub require_empty_stack : Bool

module _ (out_edges : String → List Edge) (q : Query) where
  -- One round of the `while` loop, once a state that is not accepted has left the queue.
  unfoldable pub expand : ContextState → Search → Search
  expand s f = visit_edges q.overlays q.max_call_depth s f (sorted edge_before (out_edges s.node))

  abbrev pub exhausted : Search → Result QueryError (List String)
  exhausted f = if f.depth_truncated then raise depth_exceeded else ok []

  -- The `while` loop over the queue. The rounds left are `max_states - explored`.
  unfoldable pub search : ℕ → Search → List ContextState → Result QueryError (List String)
  search left f [] = exhausted f
  search zero f (s ∷ rest) = raise states_exceeded
  search (suc left) f (s ∷ rest) =
      let next = expand s (record f { pending = rest }) in
      if accepts q.target q.require_empty_stack s
      then reconstruct (suc (length f.predecessor)) f.predecessor (some s) []
      else search left next next.pending

-- A graph, as a query reads it.
pub record GraphView : Type 0 where
  pub has_node : String → Bool
  pub out_edges : String → List Edge

abbrev pub begin : String → ContextState
begin source = record { node = source; stack = [] }

abbrev pub first_search : ContextState → Search
first_search s = record { pending = s ∷ []; predecessor = (s, none) ∷ []; depth_truncated = false }

abbrev query_nodes : GraphView → String → Query → ℕ → Result QueryError (List String)
query_nodes g source q max_states =
    if not (g.has_node source) || not (g.has_node q.target)
    then ok []
    else search g.out_edges q max_states (first_search (begin source)) (begin source ∷ [])

unfoldable pub context_balanced_path :
    GraphView
    → String
    → String
    → Option (List String)
    → ℤ
    → ℤ
    → Bool
    → Result QueryError (List String)
context_balanced_path g source target overlays (negsuc n) max_states require_empty_stack =
    raise negative_depth
context_balanced_path g source target overlays (pos depth) (negsuc n) require_empty_stack =
    raise no_states
context_balanced_path g source target overlays (pos depth) (pos zero) require_empty_stack =
    raise no_states
context_balanced_path g source target overlays (pos depth) (pos (suc n)) require_empty_stack =
    query_nodes g source
      (record {
        target = target;
        overlays = selected_overlays overlays;
        max_call_depth = depth;
        require_empty_stack = require_empty_stack;
      })
      (suc n)

abbrev is_found : Result QueryError (List String) → Result QueryError Bool
is_found (ok []) = ok false
is_found (ok (n ∷ ns)) = ok true
is_found (raise e) = raise e

unfoldable pub context_balanced_reachable :
    GraphView → String → String → Option (List String) → ℤ → ℤ → Bool → Result QueryError Bool
context_balanced_reachable g source target overlays max_call_depth max_states require_empty_stack =
    is_found
      (context_balanced_path g source target overlays max_call_depth max_states require_empty_stack)
