-- ===== src/Scanner/Calls/Overloads.antt =====
-- `_select_overload` and `_overload_score` of scanner/src/aegify/scanner/call_graph.py.
use aegify.Base.{
  unique_from, ℕ, ◌&&◌, ◌||◌, not, Bool, true, false, String, Option, none, some, List, [], ◌∷◌,
  ◌++◌, ltb, ◌==◌, length, any, if◌then◌else◌, list_beq, str_eq, lookup,
}
use aegify.Scanner.Calls.Types.{Characters, normalize_jvm_type}
use aegify.Scanner.Calls.Scores.{CallSite, FunctionDef, Language, jvm_overload_score}
use aegify.Scanner.Calls.Graph.{CallGraphBuilder, Site, node_id, caller_function}

abbrev site_eq : Site → Site → Bool
site_eq (f, l, c, n) (g, m, d, o) = (str_eq f g && l == m) && (c == d && str_eq n o)

abbrev pub add_site : Site → List Site → List Site
add_site site sites = if any (site_eq site) sites then sites else sites ++ site ∷ []

abbrev pub discard : Site → List Site → List Site
discard site [] = []
discard site (s ∷ sites) =
    let rest = discard site sites in if site_eq site s then rest else s ∷ rest

abbrev pub filter {ℓ} : {A : Type ℓ} → (A → Bool) → List A → List A
filter p [] = []
filter p (x ∷ xs) = let rest = filter p xs in if p x then x ∷ rest else rest

-- `functions = matching or functions`, as the two `if`s have it.
abbrev pub narrowed : List FunctionDef → List FunctionDef → List FunctionDef
narrowed [] functions = functions
narrowed (f ∷ matching) functions = f ∷ matching

abbrev pub repository_of : CallSite → Option FunctionDef → String
repository_of call none = call.repository_id
repository_of call (some caller) =
    if str_eq call.repository_id "" then caller.repository_id else call.repository_id

abbrev class_is : String → Option String → Bool
class_is name none = false
class_is name (some c) = not (str_eq c "") && str_eq c name

-- The functions of the index that the ids name, in the repository where there is one.
abbrev pub functions_of : CallGraphBuilder → String → List String → List FunctionDef
functions_of g repository [] = []
functions_of g repository (id ∷ ids) =
    let rest = functions_of g repository ids in
    elim (lookup id g.function_index) [
      | none ↦ rest
      | some f ↦
          if str_eq repository "" || str_eq f.repository_id repository then f ∷ rest else rest
    ]

abbrev pub maximum : List (ℕ × FunctionDef) → ℕ
maximum [] = 0
maximum ((s, f) ∷ scored) = let rest = maximum scored in if ltb rest s then s else rest

-- `[function for score, function in scored if score == best]`
abbrev pub scoring : ℕ → List (ℕ × FunctionDef) → List FunctionDef
scoring best [] = []
scoring best ((s, f) ∷ scored) =
    let rest = scoring best scored in if s == best then f ∷ rest else rest

abbrev pub single : List FunctionDef → Option FunctionDef
single (f ∷ []) = some f
single _ = none

-- The one winner, if there is one.
unfoldable pub winner : List (ℕ × FunctionDef) → Option FunctionDef
winner scored = single (scoring (maximum scored) scored)

module _ (characters : Characters) where
  abbrev is_jvm : Option Language → Bool
  is_jvm (some Language.java) = true
  is_jvm (some Language.kotlin) = true
  is_jvm _ = false

  -- `_overload_score`
  unfoldable pub overload_score : CallSite → FunctionDef → Option ℕ
  overload_score call f = if is_jvm f.language then jvm_overload_score characters call f else some 0

  abbrev pub scored_functions : CallSite → List FunctionDef → List (ℕ × FunctionDef)
  scored_functions call [] = []
  scored_functions call (f ∷ fs) =
      let rest = scored_functions call fs in
      elim (overload_score call f) [ some s ↦ (s, f) ∷ rest | none ↦ rest ]

  abbrev pub has_class : String → Option String → Bool
  has_class receiver none = false
  has_class receiver (some c) =
      not (str_eq c "")
      && list_beq ◌==◌ (normalize_jvm_type characters c) (normalize_jvm_type characters receiver)

  abbrev pub class_of : Option FunctionDef → Option String
  class_of none = none
  class_of (some f) = f.class_name

  abbrev pub same_class : Option String → FunctionDef → Bool
  same_class none f = false
  same_class (some c) f = class_is c f.class_name

  -- The functions of the receiver's type, or else of the caller's class, if any.
  abbrev pub by_class : CallSite → Option FunctionDef → List FunctionDef → List FunctionDef
  by_class call caller functions =
      if str_eq call.receiver_type ""
      then narrowed (filter (same_class (class_of caller)) functions) functions
      else narrowed (filter (λ f. has_class call.receiver_type f.class_name) functions) functions

  abbrev pub site : CallSite → Site
  site call = (call.file_path, call.line, call.column, call.callee)

  abbrev several : List FunctionDef → Bool
  several fs = ltb 1 (length fs)

  abbrev ambiguous : CallSite → Bool → CallGraphBuilder → CallGraphBuilder
  ambiguous call overloaded g =
      if overloaded
      then record g { overload_ambiguous_sites = add_site (site call) g.overload_ambiguous_sites }
      else g

  abbrev resolved : CallSite → Bool → CallGraphBuilder → CallGraphBuilder
  resolved call overloaded g =
      if overloaded
      then record g {
        overload_resolved_sites = add_site (site call) g.overload_resolved_sites;
        overload_ambiguous_sites = discard (site call) g.overload_ambiguous_sites;
      }
      else g

  -- The functions that the candidates stand for.
  abbrev pub eligible : CallGraphBuilder → CallSite → List String → List FunctionDef
  eligible g call candidates =
      functions_of g (repository_of call (caller_function g call)) (unique_from [] candidates)

  -- Those among which the scores decide.
  abbrev pub rivals : CallGraphBuilder → CallSite → List String → List FunctionDef
  rivals g call candidates = by_class call (caller_function g call) (eligible g call candidates)

  abbrev pub decide :
      CallSite → Bool → Option FunctionDef → CallGraphBuilder → Option String × CallGraphBuilder
  decide call overloaded none g = (none, ambiguous call overloaded g)
  decide call overloaded (some f) g = (some (node_id g f), resolved call overloaded g)

  -- `_select_overload`
  unfoldable pub select_overload :
      CallGraphBuilder → CallSite → List String → Option String × CallGraphBuilder
  unfolding winner
  select_overload g call candidates =
      decide call (several (eligible g call candidates))
        (winner (scored_functions call (rivals g call candidates))) g
