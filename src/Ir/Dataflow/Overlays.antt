-- ===== src/Ir/Dataflow/Overlays.antt =====
-- The edges that `_build_data_overlays` (scanner/src/aegify/ir/program_graph.py) adds from reaching
-- definitions: definition to use, the inputs of an SSA phi, and data states. A node that the code
-- names by a text made of a statement and a variable is that pair.
use aegify.Base.{
  ◌&&◌, Bool, String, List, [], ◌∷◌, ◌++◌, map, length, leb, if◌then◌else◌, str_mem, concat_map,
}
use aegify.Ir.Dataflow.Definitions.{Flow, Defs, defs_of, at}

pub data DataNode : Type 0 where
  statement : String → DataNode
  data_state phi : String → String → DataNode

pub data DataKind : Type 0 where
  def_use phi_input transforms produces_state : DataKind

pub record DataEdge : Type 0 where
  pub source : DataNode
  pub target : DataNode
  pub kind : DataKind
  pub variable : String

abbrev pub def_use_edge : String → String → String → DataEdge
def_use_edge n v d = record {
  source = DataNode.statement d;
  target = DataNode.statement n;
  kind = def_use;
  variable = v;
}

abbrev phi_edge : String → String → String → DataEdge
phi_edge n v d = record {
  source = DataNode.statement d;
  target = DataNode.phi n v;
  kind = phi_input;
  variable = v;
}

abbrev phi_use : String → String → DataEdge
phi_use n v = record {
  source = DataNode.phi n v;
  target = DataNode.statement n;
  kind = def_use;
  variable = v;
}

module _ (f : Flow) (s : Defs) where
  abbrev pub reaching : String → String → List String
  reaching n v = defs_of v (at n s.in_defs)

  unfoldable pub def_use_edges : List DataEdge
  def_use_edges =
      concat_map (λ n. concat_map (λ v. map (def_use_edge n v) (reaching n v)) (f.uses n)) f.nodes

  abbrev phi_at : String → String → List DataEdge
  phi_at n v =
      if leb 2 (length (reaching n v))
      then map (phi_edge n v) (reaching n v) ++ phi_use n v ∷ []
      else []

  -- Only where control flow joins.
  unfoldable pub phi_edges : List DataEdge
  phi_edges =
      concat_map
        (λ n. if leb 2 (length (f.predecessors n)) then concat_map (phi_at n) (f.uses n) else [])
        f.nodes

  abbrev state_edge : String → String → DataEdge
  state_edge n v = record {
    source = DataNode.statement n;
    target = DataNode.data_state n v;
    kind = produces_state;
    variable = v;
  }

  -- A state for every definition of a node of the function.
  unfoldable pub state_edges : List DataEdge
  state_edges = concat_map (λ n. map (state_edge n) (f.definitions n)) f.nodes

  -- `(d, v) in state_for_definition`
  abbrev has_state : String → String → Bool
  has_state d v = str_mem d f.nodes && str_mem v (f.definitions d)

  abbrev pub transform_edge : String → String → String → String → List DataEdge
  transform_edge n w v d =
      if has_state d v
      then record {
        source = DataNode.data_state d v;
        target = DataNode.data_state n w;
        kind = transforms;
        variable = v;
      }
        ∷ []
      else []

  unfoldable pub transform_edges : List DataEdge
  transform_edges =
      concat_map
        (λ n.
          concat_map
            (λ w. concat_map (λ v. concat_map (transform_edge n w v) (reaching n v)) (f.uses n))
            (f.definitions n))
        f.nodes
