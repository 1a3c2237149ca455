-- ===== src/Ir/Cfg/Statements.antt =====
-- `_statements` of scanner/src/aegify/ir/program_graph.py, and what `_emit_sequence`, `_emit_try` and
-- `_emit_switch` read of a statement's node before they recur.
use aegify.Base.{
  ℕ, ◌&&◌, ◌||◌, Bool, true, false, String, Option, none, some, List, [], ◌∷◌, leb, ◌==◌, codes,
  if◌then◌else◌, str_eq, str_mem,
}
use aegify.Ir.Cfg.Nodes.{
  Info, Node, node, Children, no_child, child, block_types, if_types, switch_types, try_types,
  catch_types, finally_types, try_else_types, loop_types, case_types, Statement, simple, branch,
  loop_of, switch, try, Statements, end, ◌⨾◌, Clause, absent, present, Cases, no_case, case,
  Catches, no_catch, catch, append_statements,
}

-- A node with its statement, what `_statements` gives for it, and the same of its children.
mutual
  pub data View : Type 0 where
    view : Info → Statement → Statements → Views → View

  pub data Views : Type 0 where
    no_view : Views
    views : Option String → View → Views → Views

abbrev pub info_of : View → Info
info_of (view i x s vs) = i

abbrev pub statement_of : View → Statement
statement_of (view i x s vs) = x

abbrev pub statements_of : View → Statements
statements_of (view i x s vs) = s

abbrev pub views_of : View → Views
views_of (view i x s vs) = vs

abbrev is_field : String → Option String → Bool
is_field f none = false
is_field f (some g) = str_eq f g

-- `child_by_field_name`
abbrev pub by_field : String → Views → Option View
by_field f no_view = none
by_field f (views g v vs) = let rest = by_field f vs in if is_field f g then some v else rest

-- `[child for child in named_children if child.type in kinds]`
abbrev pub of_kinds : List String → Views → List View
of_kinds kinds no_view = []
of_kinds kinds (views g v vs) =
    let rest = of_kinds kinds vs in if str_mem (info_of v).kind kinds then v ∷ rest else rest

abbrev pub not_of_kinds : List String → Views → List View
not_of_kinds kinds no_view = []
not_of_kinds kinds (views g v vs) =
    let rest = not_of_kinds kinds vs in if str_mem (info_of v).kind kinds then rest else v ∷ rest

abbrev pub first_of : List View → Option View
first_of [] = none
first_of (v ∷ vs) = some v

abbrev pub second_of : List View → Option View
second_of [] = none
second_of (v ∷ vs) = first_of vs

abbrev pub last_of : List View → Option View
last_of [] = none
last_of (v ∷ []) = some v
last_of (v ∷ w ∷ vs) = last_of (w ∷ vs)

abbrev pub or_else : Option View → Option View → Option View
or_else none w = w
or_else (some v) w = some v

-- `_statements(None)` is empty.
abbrev pub statements_or_none : Option View → Statements
statements_or_none none = end
statements_or_none (some v) = statements_of v

abbrev clause : Option View → Clause
clause none = absent
clause (some v) = present (statements_of v)

abbrev children_of : Option View → Views
children_of none = no_view
children_of (some v) = views_of v

-- `fact_text`
abbrev fact_text : Info → Option View → List ℕ
fact_text i none = i.text
fact_text i (some v) = (info_of v).text

-- The bodies of an `if`: by their fields, or the first two blocks where there is no `consequence`.
abbrev pub branch_of : Info → Views → Option View → Statement
branch_of i vs (some v) =
    branch i (fact_text i (by_field "condition" vs)) (statements_of v)
      (clause (by_field "alternative" vs))
branch_of i vs none =
    let blocks = of_kinds block_types vs in
    branch i (fact_text i (by_field "condition" vs)) (statements_or_none (first_of blocks))
      (clause (or_else (second_of blocks) (by_field "alternative" vs)))

abbrev whitespace : ℕ → Bool
whitespace c =
    leb 9 c && leb c 13
    || leb 28 c && leb c 32
    || c == 133
    || c == 160
    || c == 5760
    || leb 8192 c && leb c 8202
    || c == 8232
    || c == 8233
    || c == 8239
    || c == 8287
    || c == 12_288

-- `text.lstrip()`
abbrev lstrip : List ℕ → List ℕ
lstrip [] = []
lstrip (c ∷ cs) = let rest = lstrip cs in if whitespace c then rest else c ∷ cs

abbrev starts_with : List ℕ → List ℕ → Bool
starts_with [] cs = true
starts_with (p ∷ ps) [] = false
starts_with (p ∷ ps) (c ∷ cs) = p == c && starts_with ps cs

abbrev is_default : View → Bool
is_default v =
    let text = lstrip (info_of v).text in
    starts_with (codes "default") text || starts_with (codes "else") text

abbrev each_statement : List View → Statements
each_statement [] = end
each_statement (v ∷ vs) = statement_of v ⨾ each_statement vs

abbrev when_entry_statements : View → Statements
when_entry_statements v = statements_or_none (
    or_else (by_field "body" (views_of v))
      (last_of (not_of_kinds ("when_condition" ∷ "number_literal" ∷ []) (views_of v))))

abbrev case_statements : View → Statements
case_statements v = each_statement (not_of_kinds ("switch_label" ∷ []) (views_of v))

abbrev cases_by : (View → Statements) → List View → Cases
cases_by f [] = no_case
cases_by f (v ∷ vs) = case (is_default v) (f v) (cases_by f vs)

-- Only the cases of a `when` do not fall through.
abbrev pub switch_of : Info → Views → Statement
switch_of i vs =
    let text = fact_text i (by_field "condition" vs) in
    if str_eq i.kind "when_expression"
    then switch i text false (cases_by when_entry_statements (of_kinds ("when_entry" ∷ []) vs))
    else switch i text true
        (cases_by case_statements (of_kinds case_types (children_of (by_field "body" vs))))

abbrev catches_of : List View → Catches
catches_of [] = no_catch
catches_of (v ∷ vs) =
    catch
      (statements_or_none
        (or_else (by_field "body" (views_of v)) (last_of (of_kinds block_types (views_of v)))))
      (catches_of vs)

-- A clause with the statements of its first block.
abbrev block_clause : Option View → Clause
block_clause none = absent
block_clause (some v) = present (statements_or_none (first_of (of_kinds block_types (views_of v))))

abbrev pub try_of : Info → Views → Statement
try_of i vs =
    try i (statements_or_none (or_else (by_field "body" vs) (first_of (of_kinds block_types vs))))
      (catches_of (of_kinds catch_types vs)) (block_clause (first_of (of_kinds try_else_types vs)))
      (block_clause (first_of (of_kinds finally_types vs)))

-- The tests in the order of `_emit_sequence`.
abbrev pub classify : Info → Views → Statement
classify i vs =
    if str_mem i.kind try_types
    then try_of i vs
    else if str_mem i.kind switch_types
    then switch_of i vs
    else if str_mem i.kind if_types
    then branch_of i vs (by_field "consequence" vs)
    else if str_mem i.kind loop_types
    then loop_of i (fact_text i (by_field "condition" vs)) (statements_or_none (by_field "body" vs))
    else simple i

abbrev pub all_statements : Views → Statements
all_statements no_view = end
all_statements (views f v vs) = append_statements (statements_of v) (all_statements vs)

-- A block is transparent.
abbrev pub own_statements : Info → Views → Statements
own_statements i vs = if str_mem i.kind block_types then all_statements vs else classify i vs ⨾ end

unfoldable mutual
  pub annotate : Node → View
  annotate (node i cs) = let vs = annotate_all cs in view i (classify i vs) (own_statements i vs) vs

  pub annotate_all : Children → Views
  annotate_all no_child = no_view
  annotate_all (child f n cs) = views f (annotate n) (annotate_all cs)

-- `_statements`
abbrev pub statements : Node → Statements
statements n = statements_of (annotate n)

-- The statements of the body of a function's node.
unfoldable pub body_statements : Node → Statements
body_statements (node i cs) =
    let vs = annotate_all cs in
    statements_or_none (or_else (by_field "body" vs) (first_of (of_kinds block_types vs)))
