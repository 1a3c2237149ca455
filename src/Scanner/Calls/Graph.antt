-- ===== src/Scanner/Calls/Graph.antt =====
-- The indices of functions that CallGraphBuilder of scanner/src/aegify/scanner/call_graph.py keeps, with
-- its `_node_id` and `_caller_function`.
use aegify.Base.{
  ℕ, ◌&&◌, Bool, true, false, String, Option, none, some, List, [], ◌∷◌, ◌==◌, if◌then◌else◌,
  str_eq, Dict, lookup,
}
use aegify.Scanner.Calls.Scores.{CallSite, FunctionDef}

-- A file, a line, a column and a callee.
abbrev pub Site : Type 0
Site = String × ℕ × ℕ × String

-- The indices that resolution reads, and the two sets of sites that it writes.
pub record CallGraphBuilder : Type 0 where
  pub node_id_by_function : List (ℕ × String)
  pub function_index : Dict FunctionDef
  pub name_index : Dict (List String)
  pub suffix_index : Dict (List String)
  pub file_function_index : List ((String × String) × List String)
  pub import_map : List ((String × String) × List String)
  pub declared_imports : List (String × String)
  pub overload_resolved_sites : List Site
  pub overload_ambiguous_sites : List Site

-- `index.get((file_path, name), [])`
abbrev pub named : List ((String × String) × List String) → String → String → List String
named [] file name = []
named (((f, n), ids) ∷ rest) file name =
    let later = named rest file name in if str_eq f file && str_eq n name then ids else later

abbrev pub or_nil : Option (List String) → List String
or_nil none = []
or_nil (some ids) = ids

-- The first entry of the identities, and the default.
abbrev id_in : List (ℕ × String) → ℕ → String → String
id_in [] address default = default
id_in ((a, n) ∷ rest) address default =
    let later = id_in rest address default in if a == address then n else later

-- `_node_id`
unfoldable pub node_id : CallGraphBuilder → FunctionDef → String
node_id g f =
    id_in g.node_id_by_function f.address
      (if str_eq f.symbol_id "" then f.qualified_name else f.symbol_id)

abbrev pub or_empty : Option String → String
or_empty none = ""
or_empty (some s) = s

abbrev head : List String → Option String
head [] = none
head (x ∷ xs) = some x

abbrev function_of : CallGraphBuilder → List String → Option FunctionDef
function_of g (id ∷ []) = lookup id g.function_index
function_of g _ = none

abbrev is_single : List String → Bool
is_single (x ∷ []) = true
is_single _ = false

-- The loop of `_caller_function`
abbrev caller_among : CallGraphBuilder → String → List String → Option FunctionDef
caller_among g file [] = none
caller_among g file (name ∷ names) =
    let candidates = named g.file_function_index file name in
    let rest = caller_among g file names in
    if is_single candidates then function_of g candidates else rest

abbrev by_symbol : CallGraphBuilder → CallSite → Option FunctionDef → Option FunctionDef
by_symbol g call known =
    let by_name =
      caller_among g call.file_path (call.caller_symbol_id ∷ or_empty call.in_function ∷ []) in
    elim known [
      | none ↦ by_name
      | some f ↦ if str_eq f.file_path call.file_path then some f else by_name
    ]

-- `_caller_function`
unfoldable pub caller_function : CallGraphBuilder → CallSite → Option FunctionDef
caller_function g call = by_symbol g call (lookup call.caller_symbol_id g.function_index)
