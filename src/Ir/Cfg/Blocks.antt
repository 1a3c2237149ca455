-- ===== src/Ir/Cfg/Blocks.antt =====
-- `_statements` of scanner/src/aegify/ir/program_graph.py: what becomes of blocks.
use aegify.Base.{
  ◌≡◌, refl, Bool, true, false, not, ◌&&◌, Option, none, some, if◌then◌else◌, str_mem, str_eq,
  Bool-cases, inl, inr,
}
use aegify.Ir.Cfg.Nodes.{
  Info, Node, node, Children, no_child, child, block_types, if_types, switch_types, try_types,
  loop_types, Statement, simple, branch, loop_of, switch, try, Statements, end, ◌⨾◌,
  append_statements,
}
use aegify.Ir.Cfg.Statements.{
  View, Views, by_field, annotate, annotate_all, classify, own_statements, all_statements,
  statements, branch_of,
}

pub info_of_statement : Statement → Info
info_of_statement (simple i) = i
info_of_statement (branch i text s f) = i
info_of_statement (loop_of i text s) = i
info_of_statement (switch i text b cs) = i
info_of_statement (try i s k f l) = i

unfoldable pub no_block : Statements → Bool
unfolding info_of_statement
no_block end = true
no_block (x ⨾ s) = not (str_mem (info_of_statement x).kind block_types) && no_block s

if-info :
    (i : Info) (t : Bool) (x y : Statement)
    → info_of_statement x ≡ i
    → info_of_statement y ≡ i
    → info_of_statement (if t then x else y) ≡ i
if-info i true x y p q = p
if-info i false x y p q = q

branch-info : (i : Info) (vs : Views) (o : Option View) → info_of_statement (branch_of i vs o) ≡ i
unfolding info_of_statement
branch-info i vs none = refl
branch-info i vs (some v) = refl

classify-info : (i : Info) (vs : Views) → info_of_statement (classify i vs) ≡ i
unfolding info_of_statement
classify-info i vs = if-info i (str_mem i.kind try_types) _ _ refl (
    if-info i (str_mem i.kind switch_types) _ _
      (if-info i (str_eq i.kind "when_expression") _ _ refl refl)
      (if-info i (str_mem i.kind if_types) _ _ (branch-info i vs (by_field "consequence" vs))
        (if-info i (str_mem i.kind loop_types) _ _ refl refl)))

both_true : (a b : Bool) → (a && b) ≡ true → (a ≡ true) × (b ≡ true)
both_true true b h = (refl, h)
both_true false b h = absurd (cc)

append-no_block :
    (s t : Statements)
    → no_block s ≡ true
    → no_block t ≡ true
    → no_block (append_statements s t) ≡ true
unfolding no_block
append-no_block end t p q = q
append-no_block (x ⨾ s) t p q =
    let (here', rest) =
      both_true (not (str_mem (info_of_statement x).kind block_types)) (no_block s) p in
    rw here' (append-no_block s t rest q)

own-no_block :
    (i : Info) (vs : Views)
    → no_block (all_statements vs) ≡ true
    → no_block (own_statements i vs) ≡ true
unfolding no_block
own-no_block i vs h = elim (Bool-cases (str_mem i.kind block_types)) [
  | inl e ↦ rw e h
  | inr e ↦ let same = classify-info i vs in rw (e, same, e) refl
]

empty_block : no_block end ≡ true
unfolding no_block
empty_block = refl

mutual
  unfolding annotate

  node-no_block : (n : Node) → no_block (statements n) ≡ true
  node-no_block (node i cs) = own-no_block i (annotate_all cs) (children-no_block cs)

  children-no_block : (cs : Children) → no_block (all_statements (annotate_all cs)) ≡ true
  children-no_block no_child = empty_block
  children-no_block (child f n cs) =
      append-no_block (statements n) (all_statements (annotate_all cs)) (node-no_block n)
        (children-no_block cs)

-- The statements of a node have no block among them, however deeply blocks are nested: a block stands
-- for its own statements.
pub statements-no_block : (n : Node) → no_block (statements n) ≡ true
statements-no_block n = node-no_block n
