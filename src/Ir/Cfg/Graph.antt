-- ===== src/Ir/Cfg/Graph.antt =====
-- The graph that `_build_function` of scanner/src/aegify/ir/program_graph.py fills: nodes with their
-- attributes, and edges in the order in which they are added. A node that the code names by a text
-- made of a statement, a role and a number is their tuple. Attributes that are the same for all nodes
-- of a function are left out.
use aegify.Base.{ℕ, ◌&&◌, Bool, String, List, [], ◌∷◌, ◌++◌, ◌==◌, any, if◌then◌else◌, str_eq}
use aegify.Ir.Cfg.Nodes.{Info}

pub data Role : Type 0 where
  function file entry exit statement loop_exit try_exit finally_entry catch_entry switch_exit
        case_entry :
      Role

abbrev role_code : Role → ℕ
role_code function = 0
role_code file = 1
role_code entry = 2
role_code exit = 3
role_code statement = 4
role_code loop_exit = 5
role_code try_exit = 6
role_code finally_entry = 7
role_code catch_entry = 8
role_code switch_exit = 9
role_code case_entry = 10

pub record NodeId : Type 0 where
  pub role : Role
  pub start_byte : ℕ
  pub syntax : String
  pub index : ℕ

abbrev pub same_id : NodeId → NodeId → Bool
same_id a b =
    role_code a.role == role_code b.role
    && a.start_byte == b.start_byte
    && str_eq a.syntax b.syntax
    && a.index == b.index

abbrev pub id_of : Role → Info → ℕ → NodeId
id_of r i n = record { role = r; start_byte = i.start_byte; syntax = i.kind; index = n }

-- A node of the function that is no statement.
abbrev pub function_part : Role → NodeId
function_part r = record { role = r; start_byte = 0; syntax = ""; index = 0 }

-- `_data_facts`, which matches regular expressions against the text, is a parameter.
pub record Facts : Type 0 where
  pub definitions : List String
  pub uses : List String
  pub allocations : List (String × String)
  pub aliases : List (String × String)

abbrev pub no_facts : Facts
no_facts = record { definitions = []; uses = []; allocations = []; aliases = [] }

pub record Attributes : Type 0 where
  pub kind : String
  pub syntax_kind : String
  pub line_start : ℕ
  pub line_end : ℕ
  pub code : List ℕ
  pub facts : Facts

abbrev pub bare : String → Facts → Attributes
bare kind facts = record {
  kind = kind;
  syntax_kind = "";
  line_start = 0;
  line_end = 0;
  code = [];
  facts = facts;
}

pub record CfgEdge : Type 0 where
  pub source : NodeId
  pub target : NodeId
  pub kind : String
  pub overlay : String
  pub fidelity : String

pub record Graph : Type 0 where
  pub nodes : List (NodeId × Attributes)
  pub edges : List CfgEdge

abbrev pub has_node : NodeId → List (NodeId × Attributes) → Bool
has_node x ns = any (λ n. same_id x n.0) ns

-- A node that is there gets the new attributes.
abbrev set_node : NodeId → Attributes → List (NodeId × Attributes) → List (NodeId × Attributes)
set_node x a [] = (x, a) ∷ []
set_node x a ((y, b) ∷ ns) =
    let rest = set_node x a ns in if same_id x y then (y, a) ∷ ns else (y, b) ∷ rest

unfoldable pub add_node : NodeId → Attributes → Graph → Graph
add_node x a g = record g { nodes = set_node x a g.nodes }

-- An end that is missing becomes a node without attributes.
abbrev ensure_node : NodeId → List (NodeId × Attributes) → List (NodeId × Attributes)
ensure_node x ns = if has_node x ns then ns else ns ++ (x, bare "" no_facts) ∷ []

unfoldable pub add_edge : CfgEdge → Graph → Graph
add_edge e g = record {
  nodes = ensure_node e.target (ensure_node e.source g.nodes);
  edges = g.edges ++ e ∷ [];
}

abbrev pub cfg : String → NodeId → NodeId → CfgEdge
cfg kind s t = record { source = s; target = t; kind = kind; overlay = "cfg"; fidelity = "" }

-- An edge with `fidelity="source-conservative"`.
abbrev pub conservative : String → NodeId → NodeId → CfgEdge
conservative kind s t = record {
  source = s;
  target = t;
  kind = kind;
  overlay = "cfg";
  fidelity = "source-conservative";
}

-- A node that control leaves for what comes next, and the kind of the edge that it takes.
abbrev pub Tail : Type 0
Tail = NodeId × String

-- `for predecessor, edge_kind in tails: graph.add_edge(predecessor, x, kind=edge_kind, ...)`
unfoldable pub link_tails : NodeId → List Tail → Graph → Graph
link_tails x [] g = g
link_tails x ((t, kind) ∷ tails) g = link_tails x tails (add_edge (cfg kind t x) g)

-- `for tail, _ in tails: graph.add_edge(tail, x, kind=kind, ...)`
unfoldable pub join_tails : String → NodeId → List Tail → Graph → Graph
join_tails kind x [] g = g
join_tails kind x ((t, k) ∷ tails) g = join_tails kind x tails (add_edge (cfg kind t x) g)

-- The same for nodes, with conservative edges.
unfoldable pub join_nodes : String → NodeId → List NodeId → Graph → Graph
join_nodes kind x [] g = g
join_nodes kind x (n ∷ ns) g = join_nodes kind x ns (add_edge (conservative kind n x) g)

unfoldable pub add_join : NodeId → Graph → Graph
add_join x g = add_node x (bare "control-join" no_facts) g
