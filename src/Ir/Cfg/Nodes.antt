-- ===== src/Ir/Cfg/Nodes.antt =====
-- Syntax trees as scanner/src/aegify/ir/program_graph.py reads them from tree-sitter: a node's type,
-- place and text, and its named children with the fields that they stand in.
use aegify.Base.{ℕ, Bool, String, Option, List, [], ◌∷◌}

-- The text is a list of code points.
pub record Info : Type 0 where
  pub kind : String
  pub start_byte : ℕ
  pub first_row : ℕ
  pub last_row : ℕ
  pub text : List ℕ

mutual
  pub data Node : Type 0 where
    node : Info → Children → Node

  pub data Children : Type 0 where
    no_child : Children
    child : Option String → Node → Children → Children

abbrev pub block_types : List String
block_types = "block" ∷ "class_body" ∷ "function_body" ∷ "statement_block" ∷ "statement_list" ∷ []

abbrev pub if_types : List String
if_types = "if_statement" ∷ "if_expression" ∷ []

abbrev pub switch_types : List String
switch_types = "switch_expression" ∷ "switch_statement" ∷ "when_expression" ∷ []

abbrev pub try_types : List String
try_types = "try_expression" ∷ "try_statement" ∷ "try_with_resources_statement" ∷ []

abbrev pub catch_types : List String
catch_types = "catch_block" ∷ "catch_clause" ∷ "except_clause" ∷ []

abbrev pub finally_types : List String
finally_types = "finally_block" ∷ "finally_clause" ∷ []

abbrev pub try_else_types : List String
try_else_types = "else_clause" ∷ []

abbrev pub loop_types : List String
loop_types =
    "do_statement" ∷ "for_in_statement" ∷ "for_statement" ∷ "while_statement" ∷ "while_expression"
    ∷ []

abbrev pub function_terminal_types : List String
function_terminal_types =
    "raise_statement" ∷ "return_statement" ∷ "throw_expression" ∷ "throw_statement" ∷ []

abbrev pub case_types : List String
case_types = "switch_block_statement_group" ∷ "switch_rule" ∷ []

-- A node's statements, with what the code reads of each before it recurs. An `else` or a `finally`
-- is a clause that may be absent; a case says whether it is the default.
mutual
  pub data Statement : Type 0 where
    simple : Info → Statement
    branch : Info → List ℕ → Statements → Clause → Statement
    loop_of : Info → List ℕ → Statements → Statement
    switch : Info → List ℕ → Bool → Cases → Statement
    try : Info → Statements → Catches → Clause → Clause → Statement

  pub data Statements : Type 0 where
    end : Statements
    ◌⨾◌ : Statement → Statements → Statements

  pub data Clause : Type 0 where
    absent : Clause
    present : Statements → Clause

  pub data Cases : Type 0 where
    no_case : Cases
    case : Bool → Statements → Cases → Cases

  pub data Catches : Type 0 where
    no_catch : Catches
    catch : Statements → Catches → Catches

infixr 5 ◌⨾◌
abbrev pub append_statements : Statements → Statements → Statements
append_statements end t = t
append_statements (x ⨾ s) t = x ⨾ append_statements s t
