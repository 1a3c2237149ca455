-- ===== src/Ir/Routes/Projections.antt =====
-- The projections that the path queries of scanner/src/aegify/ir/query.py search, and networkx's
-- search of them, which is a parameter.
use Prim.Native.Char.{code}
use aegify.Base.{
  ◌==◌, Dict, lookup, ◌≡◌, Bool, true, false, not, ◌&&◌, String, Option, none, some, List, [], ◌∷◌,
  map, concat_map, if◌then◌else◌, str_eq, str_mem, sorted, Member,
}
use aegify.Ir.Dataflow.Definitions.{update, text_before}

-- An entry of `edges(data=True)`.
pub record GraphEdge : Type 0 where
  pub source : String
  pub target : String
  pub kind : Option String
  pub overlay : Option String

-- The graph, with the attribute `repository_id` of the nodes that have it.
pub record ProgramGraph : Type 0 where
  pub nodes : List String
  pub edges : List GraphEdge
  pub repository_ids : Dict String

-- An `nx.DiGraph`.
pub record DiGraph : Type 0 where
  pub members : List String
  pub links : List (String × String)

abbrev pub optional_in : Option String → List String → Bool
optional_in none texts = false
optional_in (some t) texts = str_mem t texts

abbrev overlay_selected : Option String → Option (List String) → Bool
overlay_selected o none = true
overlay_selected o (some overlays) = optional_in o overlays

abbrev pub keep_edges : (GraphEdge → Bool) → List GraphEdge → List GraphEdge
keep_edges p [] = []
keep_edges p (e ∷ es) = let rest = keep_edges p es in if p e then e ∷ rest else rest

abbrev pub link : GraphEdge → String × String
link e = (e.source, e.target)

abbrev pub projects : Option (List String) → List String → GraphEdge → Bool
projects overlays excluded_kinds e =
    not (optional_in e.kind excluded_kinds) && overlay_selected e.overlay overlays

-- `_project`
unfoldable pub project : ProgramGraph → Option (List String) → List String → DiGraph
project g overlays excluded_kinds = record {
  members = g.nodes;
  links = map link (keep_edges (projects overlays excluded_kinds) g.edges);
}

abbrev pub has_kind_in : List String → GraphEdge → Bool
has_kind_in kinds e = optional_in e.kind kinds

-- `_typed_projection_kinds`
unfoldable pub typed_projection_kinds : ProgramGraph → List String → DiGraph
typed_projection_kinds g kinds =
    let es = keep_edges (has_kind_in kinds) g.edges in
    record { members = concat_map (λ e. e.source ∷ e.target ∷ []) es; links = map link es }

abbrev pub leads_from : String → String → GraphEdge → Bool
leads_from node kind e = str_eq e.source node && has_kind_in (kind ∷ []) e

abbrev pub targets : ProgramGraph → String → String → List String
targets g kind node = map (λ e. e.target) (keep_edges (leads_from node kind) g.edges)

-- `_modules_for_function`, in sorted order.
unfoldable pub modules_for_function : ProgramGraph → String → List String
modules_for_function g function =
    let files = update [] (targets g "declared-in" function) in
    sorted text_before (update [] (concat_map (targets g "member-of-module") files))

-- The text up to its first colon.
abbrev before_colon : String → String
before_colon String.[] = ""
before_colon (String.◌∷◌ c s) =
    let rest = before_colon s in if code c == b':' then "" else String.◌∷◌ c rest

-- What follows a prefix, in a text that starts with it.
abbrev without_prefix : String → String → Option String
without_prefix String.[] s = some s
without_prefix (String.◌∷◌ c prefix) String.[] = none
without_prefix (String.◌∷◌ c prefix) (String.◌∷◌ d s) =
    let rest = without_prefix prefix s in if code c == code d then rest else none

abbrev id_of_name : Option String → Option String → String
id_of_name (some name) other = before_colon name
id_of_name none (some name) = name
id_of_name none none = ""

abbrev id_or : Option String → String → String
id_or none other = other
id_or (some value) other = if str_eq value "" then other else value

-- `_repository_id`
unfoldable pub repository_id : ProgramGraph → String → String
repository_id g node =
    id_or (lookup node g.repository_ids)
      (id_of_name (without_prefix "repo:" node) (without_prefix "repository:" node))

-- A path in a projection.
pub data IsChain (d : DiGraph) (t : String) : String → List String → Type 0 where
  stop : IsChain d t t (t ∷ [])
  step :
      {s u : String} {path : List String}
      → Member (s, u) d.links
      → IsChain d t u path
      → IsChain d t s (s ∷ path)

-- `nx.shortest_path` between two nodes of a graph: a path, or `NetworkXNoPath`.
abbrev pub Finder : Type 0
Finder = DiGraph → String → String → Option (List String)

-- What networkx documents of the path that it returns.
unfoldable pub IsFinder : Finder → Type 0
IsFinder shortest_path =
    (d : DiGraph) (s t : String) (path : List String)
    → shortest_path d s t ≡ some path
    → IsChain d t s path
