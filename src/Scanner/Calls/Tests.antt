-- ===== src/Scanner/Calls/Tests.antt =====
-- Two Java overloads and a call of one, and the theorems of `_select_overload` and `_resolve_callee`
-- (scanner/src/aegify/scanner/call_graph.py) at them.
use aegify.Base.{
  ℕ, ◌≡◌, ◌↔◌, refl, ◌&&◌, ◌||◌, false, String, none, some, List, [], ◌∷◌, leb, ◌==◌, codes,
}
use aegify.Scanner.Calls.Types.{Characters, normalize_jvm_type, type_compatibility}
use aegify.Scanner.Calls.Scores.{CallSite, FunctionDef, Language, type_scores, jvm_overload_score}
use aegify.Scanner.Calls.Graph.{CallGraphBuilder, node_id, caller_function}
use aegify.Scanner.Calls.Overloads.{
  winner, overload_score, rivals, scored_functions, select_overload,
}
use aegify.Scanner.Calls.Best.{UniqueBest, select_overload-best}
use aegify.Scanner.Calls.Resolve.{
  is_unknown_import, sources, resolve_in, Found, resolve_callee, resolve_callee-Found,
}

abbrev ascii : Characters
ascii = record {
  word = λ c. (leb b'a' c && leb c b'z') || (leb b'0' c && leb c b'9');
  space = λ c. c == b' ';
}

abbrev overload : ℕ → String → String → FunctionDef
overload address type id = record {
  address = address;
  qualified_name = "View.render";
  file_path = "View.java";
  parameters = "value" ∷ [];
  parameter_types = type ∷ [];
  parameter_defaults = [];
  variadic = false;
  class_name = some "View";
  repository_id = "web";
  symbol_id = id;
  language = some Language.java;
}

abbrev of_int : FunctionDef
of_int = overload 1 "int" "render(int)"

abbrev of_text : FunctionDef
of_text = overload 2 "@NotNull java.lang.String" "render(String)"

abbrev call : CallSite
call = record {
  callee = "render";
  file_path = "View.java";
  line = 9;
  column = 4;
  arguments = "name" ∷ [];
  argument_types = "String" ∷ [];
  receiver = none;
  receiver_type = "";
  in_function = none;
  caller_symbol_id = "";
  repository_id = "web";
}

abbrev ids : List String
ids = "render(int)" ∷ "render(String)" ∷ []

abbrev graph : CallGraphBuilder
graph = record {
  node_id_by_function = [];
  function_index = ("render(int)", of_int) ∷ ("render(String)", of_text) ∷ [];
  name_index = ("render", ids) ∷ [];
  suffix_index = [];
  file_function_index = [];
  import_map = [];
  declared_imports = [];
  overload_resolved_sites = [];
  overload_ambiguous_sites = [];
}

simple_name : normalize_jvm_type ascii "@Size(max = 9) java.lang.Integer[]" ≡ codes "int"
unfolding normalize_jvm_type
simple_name = refl

widening : type_compatibility ascii "int" "long" ≡ some 1
unfolding type_compatibility
widening = refl

narrowing : type_compatibility ascii "long" "int" ≡ none
unfolding type_compatibility
narrowing = refl

text_score : jvm_overload_score ascii call of_text ≡ some 8
unfolding jvm_overload_score type_scores type_compatibility
text_score = refl

selected : (select_overload ascii graph call ids).0 ≡ some "render(String)"
unfolding select_overload winner overload_score caller_function node_id jvm_overload_score
    type_scores type_compatibility
selected = refl

-- With no type known, the two overloads have the same score.
tied :
    select_overload ascii graph (record call { argument_types = [] }) ids
    ≡ (none, record graph { overload_ambiguous_sites = ("View.java", 9, 4, "render") ∷ [] })
unfolding select_overload winner overload_score caller_function node_id jvm_overload_score
    type_scores type_compatibility
tied = refl

by_name : (resolve_callee ascii graph call).0 ≡ some "render(String)"
unfolding resolve_callee is_unknown_import sources resolve_in select_overload winner overload_score
    caller_function node_id jvm_overload_score type_scores type_compatibility
by_name = refl

select_overload-best_example :
    ((select_overload ascii graph call ids).0 ≡ some "render(String)") ↔ (
      (f : FunctionDef) × UniqueBest (scored_functions ascii call (rivals ascii graph call ids)) f
      × (node_id graph f ≡ "render(String)"))
select_overload-best_example = select_overload-best ascii graph call ids "render(String)"

resolve_callee-Found_example :
    (is_unknown_import graph call ≡ false)
    × Found ascii graph call "render(String)" (sources graph call)
resolve_callee-Found_example = resolve_callee-Found ascii graph call "render(String)" by_name
