-- ===== src/Ir/Dataflow/Edges.antt =====
-- What the edges of `_build_data_overlays` (scanner/src/aegify/ir/program_graph.py) mean.
use aegify.Base.{
  ◌≡◌, ◌↔◌, refl, ap, true, String, List, [], ◌∷◌, map, Member, Member_of_str, str_of_Member,
  concat_map, concat_map-in, concat_map-out,
}
use aegify.Ir.Dataflow.Definitions.{Flow, Defs, at, reaching_definitions}
use aegify.Ir.Dataflow.Sets.{holds}
use aegify.Ir.Dataflow.Reaching.{Reaches, IsFlow, reaching_definitions-decides}
use aegify.Ir.Dataflow.Overlays.{DataNode, DataEdge, def_use_edge, def_use_edges, reaching}

map-in : {A B : Type 0} (g : A → B) (a : A) (xs : List A) → Member a xs → Member (g a) (map g xs)
map-in g a [] m = elim m [ ]
map-in g a (x ∷ xs) (Member.here p) = Member.here (ap g p)
map-in g a (x ∷ xs) (Member.there m) = Member.there (map-in g a xs m)

map-out :
    {A B : Type 0} (g : A → B) (b : B) (xs : List A)
    → Member b (map g xs)
    → (a : A) × Member a xs × (b ≡ g a)
map-out g b [] m = absurd (elim m [ ])
map-out g b (x ∷ xs) (Member.here p) = (x, Member.here refl, p)
map-out g b (x ∷ xs) (Member.there m) = let (a, n, q) = map-out g b xs m in (a, Member.there n, q)

name_of : DataNode → String
name_of (DataNode.statement n) = n
name_of (DataNode.data_state n v) = n
name_of (DataNode.phi n v) = n

-- The parts of an edge can be read off it.
same_parts :
    (n m v w d e : String) → def_use_edge n v d ≡ def_use_edge m w e → (n ≡ m) × (v ≡ w) × (d ≡ e)
unfolding name_of
same_parts n m v w d e p = (
  ap (λ (x : DataEdge). name_of x.target) p,
  ap (λ (x : DataEdge). x.variable) p,
  ap (λ (x : DataEdge). name_of x.source) p,
)

listed :
    (f : Flow) (s : Defs) (n v d : String)
    → Member (def_use_edge n v d) (def_use_edges f s)
    → Member v (f.uses n) × (holds d v (at n s.in_defs) ≡ true)
unfolding def_use_edges
listed f s n v d k =
    let (m, mm, in_m) = concat_map-out _ _ f.nodes k in
    let (w, mw, in_w) = concat_map-out _ _ (f.uses m) in_m in
    let (e, me, same) = map-out (def_use_edge m w) _ (reaching f s m w) in_w in
    let (pn, pv, pd) = same_parts n m v w d e same in
    (rw (pn, pv) mw, rw (pn, pv, pd) (str_of_Member e (reaching f s m w) me))

-- Where the loop converges, there is an edge from a definition of a variable to a node of the
-- function exactly when the node uses the variable and the definition reaches it.
pub def_use_edges-decide :
    (f : Flow) (d n v : String)
    → IsFlow f
    → Member n f.nodes
    → (reaching_definitions f).1 ≡ true
    → Member (def_use_edge n v d) (def_use_edges f (reaching_definitions f).0)
      ↔ (Member v (f.uses n) × Reaches f d v n)
unfolding def_use_edges
def_use_edges-decide f d n v w m h =
    let s = (reaching_definitions f).0 in
    let exact = reaching_definitions-decides f n d v w m h in
    (
      λ k. let (u, r) = listed f s n v d k in (u, exact.0 r),
      λ (u, r).
          concat_map-in
            (λ m. concat_map (λ x. map (def_use_edge m x) (reaching f s m x)) (f.uses m)) _ n
            f.nodes m
            (concat_map-in (λ x. map (def_use_edge n x) (reaching f s n x)) _ v (f.uses n) u
              (map-in (def_use_edge n v) d (reaching f s n v)
                (Member_of_str d (reaching f s n v) (exact.1 r)))),
    )
