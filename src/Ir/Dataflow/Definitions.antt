-- ===== src/Ir/Dataflow/Definitions.antt =====
-- The fixpoint loop of `_build_data_overlays` (scanner/src/aegify/ir/program_graph.py), for one
-- function. A set is a list without repeats.
use Prim.Native.String.{compare}
use Prim.Native.Nat.{Ordering}
use aegify.Base.{
  ℕ, zero, suc, ◌*◌, Bool, true, false, ◌&&◌, String, Option, none, some, List, [], ◌∷◌, ◌++◌,
  length, all, if◌then◌else◌, str_mem, Dict, lookup, insert, keys, map, sorted,
}

-- What the loop reads of the graph: the nodes of the function, and each node's predecessors in the
-- control flow, definitions and uses.
pub record Flow : Type 0 where
  pub nodes : List String
  pub predecessors : String → List String
  pub definitions : String → List String
  pub uses : String → List String

-- For a variable, the nodes whose definition of it may hold.
abbrev pub Reaching : Type 0
Reaching = Dict (List String)

pub record Defs : Type 0 where
  pub in_defs : Dict Reaching
  pub out_defs : Dict Reaching

-- A missing key reads as an empty set.
abbrev pub set_or_empty : Option (List String) → List String
set_or_empty none = []
set_or_empty (some s) = s

abbrev pub defs_of : String → Reaching → List String
defs_of v d = set_or_empty (lookup v d)

abbrev pub dict_or_empty : Option Reaching → Reaching
dict_or_empty none = []
dict_or_empty (some d) = d

abbrev pub at : String → Dict Reaching → Reaching
at n d = dict_or_empty (lookup n d)

-- `s.update(xs)`
unfoldable pub update : List String → List String → List String
update s [] = s
update s (x ∷ xs) = if str_mem x s then update s xs else update (s ++ x ∷ []) xs

-- The loop over the items of a predecessor's `out_defs`. Its dictionary has a key once.
unfoldable pub merge_keys : List String → Reaching → Reaching → Reaching
merge_keys [] d merged = merged
merge_keys (v ∷ vs) d merged =
    merge_keys vs d (insert v (update (defs_of v merged) (defs_of v d)) merged)

-- The loop over the predecessors.
unfoldable pub merge_all : List String → Dict Reaching → Reaching → Reaching
merge_all [] out_defs merged = merged
merge_all (p ∷ ps) out_defs merged =
    merge_all ps out_defs (merge_keys (keys (at p out_defs)) (at p out_defs) merged)

-- The loop over the node's own definitions.
unfoldable pub define : String → List String → Reaching → Reaching
define n [] d = d
define n (v ∷ vs) d = define n vs (insert v (n ∷ []) d)

abbrev subset : List String → List String → Bool
subset s t = all (λ x. str_mem x t) s

abbrev pub same_set : List String → List String → Bool
same_set s t = subset s t && subset t s

abbrev pub same_at : Option (List String) → List String → Bool
same_at none s = false
same_at (some t) s = same_set s t

abbrev pub is_key : Option (List String) → Bool
is_key none = false
is_key (some t) = true

-- `d == e` for dictionaries of sets.
abbrev pub same_keys : List String → Reaching → Reaching → Bool
same_keys [] d e = true
same_keys (v ∷ vs) d e = same_at (lookup v e) (defs_of v d) && same_keys vs d e

unfoldable pub same_dict : Reaching → Reaching → Bool
same_dict d e = same_keys (keys d) d e && all (λ v. is_key (lookup v d)) (keys e)

abbrev is_lt : Ordering → Bool
is_lt Ordering.lt = true
is_lt Ordering.gt = false
is_lt Ordering.eq = false

abbrev pub text_before : String → String → Bool
text_before a b = is_lt (compare a b)

abbrev pub empty_for : List String → Dict Reaching
empty_for = map (λ n. (n, []))

abbrev at_least_one : ℕ → ℕ
at_least_one zero = 1
at_least_one (suc n) = suc n

module _ (f : Flow) where
  unfoldable pub current_in : String → Defs → Reaching
  current_in n s = merge_all (f.predecessors n) s.out_defs []

  abbrev pub current_out : String → Defs → Reaching
  current_out n s = define n (f.definitions n) (current_in n s)

  abbrev pub is_settled : String → Defs → Bool
  is_settled n s =
      same_dict (current_in n s) (at n s.in_defs) && same_dict (current_out n s) (at n s.out_defs)

  -- The body of the loop over the nodes: the new state, and whether anything has changed.
  abbrev pub visit_node : String → Defs × Bool → Defs × Bool
  visit_node n (s, changed) = if is_settled n s then (s, changed) else (
    record {
      in_defs = insert n (current_in n s) s.in_defs;
      out_defs = insert n (current_out n s) s.out_defs;
    },
    true,
  )

  unfoldable pub visit_nodes : List String → Defs × Bool → Defs × Bool
  visit_nodes [] s = s
  visit_nodes (n ∷ ns) s = visit_nodes ns (visit_node n s)

  -- The outer loop: the state it ends with, and whether it ends by `break`.
  unfoldable pub rounds : ℕ → Defs → Defs × Bool
  rounds zero s = (s, false)
  rounds (suc k) s =
      let r = visit_nodes (sorted text_before f.nodes) (s, false) in
      let more = rounds k r.0 in if r.1 then more else (r.0, true)

  abbrev pub no_defs : Defs
  no_defs = record { in_defs = empty_for f.nodes; out_defs = empty_for f.nodes }

  unfoldable pub reaching_definitions : Defs × Bool
  reaching_definitions = rounds (at_least_one (length f.nodes * 2)) no_defs
