-- ===== src/Ir/Query/Edges.antt =====
-- The edges of a program graph, as the queries of scanner/src/aegify/ir/query.py read them. The
-- graph itself is networkx's: a query takes the node test and the out-edges of a node as arguments.
use Prim.Native.String.{compare}
use Prim.Native.Nat.{Ordering}
use aegify.Base.{Bool, true, false, ◌||◌, String, Option, none, some, List, [], ◌∷◌, str_mem}

-- One entry of `out_edges(node, keys=True, data=True)`, without its source: the target, the key as
-- text, and the attributes that a query reads. A missing `kind` or `callsite_id` reads as "".
pub record Edge : Type 0 where
  pub target : String
  pub key : String
  pub kind : String
  pub overlay : Option String
  pub callsite_id : String

abbrev pub interprocedural_call_kinds : List String
interprocedural_call_kinds = "interprocedural-call" ∷ "interprocedural-bytecode-call" ∷ []

abbrev pub interprocedural_return_kinds : List String
interprocedural_return_kinds =
    "interprocedural-return" ∷ "interprocedural-bytecode-return" ∷ "interprocedural-bytecode-throw"
    ∷ []

abbrev pub is_call : Edge → Bool
is_call e = str_mem e.kind interprocedural_call_kinds

abbrev pub is_return : Edge → Bool
is_return e = str_mem e.kind interprocedural_return_kinds

-- Texts compare by code point.
abbrev then_by : Ordering → Bool → Bool
then_by Ordering.lt b = true
then_by Ordering.gt b = false
then_by Ordering.eq b = b

abbrev is_lt : Ordering → Bool
is_lt Ordering.lt = true
is_lt Ordering.gt = false
is_lt Ordering.eq = false

-- The sort key: target, kind, key.
unfoldable pub edge_before : Edge → Edge → Bool
edge_before a b =
    then_by (compare a.target b.target)
      (then_by (compare a.kind b.kind) (is_lt (compare a.key b.key)))

-- `overlays if overlays is not None else {"cfg", "icfg"}`
abbrev pub selected_overlays : Option (List String) → List String
selected_overlays none = "cfg" ∷ "icfg" ∷ []
selected_overlays (some overlays) = overlays

abbrev overlay_in : Option String → List String → Bool
overlay_in none overlays = false
overlay_in (some o) overlays = str_mem o overlays

abbrev is_empty : List String → Bool
is_empty [] = true
is_empty (x ∷ xs) = false

-- An empty selection selects every edge.
abbrev pub is_selected : List String → Edge → Bool
is_selected overlays e = is_empty overlays || overlay_in e.overlay overlays
