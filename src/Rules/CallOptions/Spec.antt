-- ===== src/Rules/CallOptions/Spec.antt =====
-- BooleanOptionSpec of scanner/src/aegify/rules/call_options.py: `parse` and `state`. A YAML value is
-- a Field; a key that is not a text counts among the keys that are not accepted.
use aegify.Base.{
  ℕ, zero, suc, Bool, true, false, not, ◌&&◌, String, Option, none, some, List, [], ◌∷◌, leb, ltb,
  length, codes, if◌then◌else◌, str_eq, str_mem, any, map, get_elem?, Result, ok, raise, Dict,
  lookup, keys,
}
use aegify.Models.Values.{Value, in_range, number}
use aegify.Rules.CallOptions.Arguments.{OptionState, Kind, CallArgument, state_of, property}

pub data Atom : Type 0 where
  text : String → Atom
  int : Value → Atom
  other : Atom

-- A mapping, or any other value that cannot be hashed, is `mapping`.
pub data Field : Type 0 where
  atom : Atom → Field
  items : List Atom → Field
  mapping : Field

pub data Location : Type 0 where
  keyword argument : Location

pub data ArgumentIndex : Type 0 where
  index : ℕ → ArgumentIndex
  all : ArgumentIndex
  unset : ArgumentIndex

pub record BooleanOptionSpec : Type 0 where
  pub name : String
  pub location : Location
  -- `frozenset(states)`, in the order given
  pub states : List OptionState
  pub argument : ArgumentIndex

pub data SpecError : Type 0 where
  bad_keys bad_name unhashable bad_location bad_states bad_argument extra_argument assertion :
      SpecError

abbrev pub accepted_keys : List String
accepted_keys = "name" ∷ "location" ∷ "argument" ∷ "states" ∷ []

-- The text of a field, or "" where it is no text: an empty name is refused as well.
abbrev pub text_of : Option Field → String
text_of (some (Field.atom (Atom.text s))) = s
text_of _ = ""

abbrev pub bounded_name : String → Bool
bounded_name s =
    not (str_eq s "") && (leb (length (codes s)) 128 && not (any (λ c. ltb c 32) (codes s)))

abbrev pub location_of : Option Field → Result SpecError Location
location_of (some (Field.items xs)) = raise SpecError.unhashable
location_of (some Field.mapping) = raise SpecError.unhashable
location_of (some (Field.atom (Atom.text s))) =
    if str_eq s "keyword"
    then ok Location.keyword
    else (if str_eq s "argument" then ok Location.argument else raise SpecError.bad_location)
location_of _ = raise SpecError.bad_location

-- A state by its text.
abbrev pub state_named : Atom → Option OptionState
state_named (Atom.text s) =
    if str_eq s "true"
    then some OptionState.on
    else (if str_eq s "false"
        then some OptionState.off
        else (if str_eq s "missing"
            then some OptionState.missing
            else (if str_eq s "unknown" then some OptionState.unknown else none)))
state_named _ = none

abbrev pub with_state : Option OptionState → Option (List OptionState) → Option (List OptionState)
with_state none r = none
with_state (some s) none = none
with_state (some s) (some ss) = some (s ∷ ss)

unfoldable pub states_named : List Atom → Option (List OptionState)
states_named [] = some []
states_named (a ∷ rest) = with_state (state_named a) (states_named rest)

abbrev pub states_of : Option Field → Result SpecError (List OptionState)
states_of (some (Field.items [])) = raise SpecError.bad_states
states_of (some (Field.items (a ∷ rest))) = elim (states_named (a ∷ rest)) [
  | none ↦ raise SpecError.bad_states
  | some ss ↦ ok ss
]
states_of _ = raise SpecError.bad_states

abbrev pub index_of : Option Field → Result SpecError ArgumentIndex
index_of (some (Field.atom (Atom.text s))) =
    if str_eq s "all" then ok ArgumentIndex.all else raise SpecError.bad_argument
index_of (some (Field.atom (Atom.int v))) =
    if in_range 0 127 v then ok (ArgumentIndex.index (number v)) else raise SpecError.bad_argument
index_of _ = raise SpecError.bad_argument

abbrev pub argument_of : Location → Option Field → Result SpecError ArgumentIndex
argument_of Location.argument f = index_of f
argument_of Location.keyword none = ok ArgumentIndex.unset
argument_of Location.keyword (some f) = raise SpecError.extra_argument

abbrev pub spec_at :
    String
    → List OptionState
    → Location
    → Result SpecError ArgumentIndex
    → Result SpecError BooleanOptionSpec
spec_at name states location (raise e) = raise e
spec_at name states location (ok i) =
    ok (record { name = name; location = location; states = states; argument = i })

-- The checks of the location, the states and the argument, in the order of the code.
abbrev pub spec_of :
    String
    → Option Field
    → Result SpecError Location
    → Result SpecError (List OptionState)
    → Result SpecError BooleanOptionSpec
spec_of name place (raise e) states = raise e
spec_of name place (ok l) (raise e) = raise e
spec_of name place (ok l) (ok ss) = spec_at name ss l (argument_of l place)

-- `none` stands for data that is no dictionary.
unfoldable pub parse : Option (Dict Field) → Result SpecError BooleanOptionSpec
unfolding states_named
parse none = raise SpecError.bad_keys
parse (some fields) =
    let name = text_of (lookup "name" fields) in
    if any (λ k. not (str_mem k accepted_keys)) (keys fields)
    then raise SpecError.bad_keys
    else (if not (bounded_name name)
        then raise SpecError.bad_name
        else spec_of name (lookup "argument" fields) (location_of (lookup "location" fields))
            (states_of (lookup "states" fields)))

abbrev pub is_missing : OptionState → Bool
is_missing OptionState.missing = true
is_missing _ = false

-- What one argument says of a keyword.
unfoldable pub current_state : String → CallArgument → OptionState
current_state name a = elim (a.kind) [
  | Kind.keyword ↦ if str_eq a.name name then state_of a.state else OptionState.missing
  | Kind.keyword_spread ↦ property a.options name
  | Kind.unclear ↦ OptionState.unknown
  | _ ↦ OptionState.missing
]

unfoldable pub scan_keywords : String → List CallArgument → Bool → OptionState → OptionState
scan_keywords name [] seen s = s
scan_keywords name (a ∷ rest) seen s = elim (is_missing (current_state name a)) [
  | true ↦ scan_keywords name rest seen s
  | false ↦ elim seen [
    | true ↦ OptionState.unknown
    | false ↦ scan_keywords name rest true (current_state name a)
  ]
]

abbrev pub is_positional : Kind → Bool
is_positional Kind.positional = true
is_positional _ = false

abbrev pub positional_state : String → CallArgument → OptionState
positional_state name a =
    if is_positional a.kind then property a.options name else OptionState.unknown

abbrev pub is_state : OptionState → OptionState → Bool
is_state OptionState.on OptionState.on = true
is_state OptionState.off OptionState.off = true
is_state OptionState.missing OptionState.missing = true
is_state OptionState.unknown OptionState.unknown = true
is_state _ _ = false

abbrev pub worst : List OptionState → OptionState
worst [] = OptionState.missing
worst (s ∷ ss) =
    if any (is_state OptionState.off) (s ∷ ss)
    then OptionState.off
    else (if any (is_state OptionState.missing) (s ∷ ss)
        then OptionState.missing
        else (if any (is_state OptionState.unknown) (s ∷ ss)
            then OptionState.unknown
            else OptionState.on))

unfoldable pub scan_all : String → List CallArgument → OptionState
scan_all name args = worst (map (positional_state name) args)

abbrev shifts : Kind → Bool
shifts Kind.spread = true
shifts Kind.unclear = true
shifts _ = false

abbrev take {ℓ} : {A : Type ℓ} → ℕ → List A → List A
take zero xs = []
take (suc n) [] = []
take (suc n) (x ∷ xs) = x ∷ take n xs

abbrev property_at : String → Option CallArgument → OptionState
property_at name none = OptionState.missing
property_at name (some a) = property a.options name

unfoldable pub scan_index : String → ℕ → List CallArgument → OptionState
scan_index name i args =
    if any (λ a. shifts a.kind) (take (suc i) args)
    then OptionState.unknown
    else property_at name (get_elem? args i)

abbrev state_at : String → ArgumentIndex → List CallArgument → Result SpecError OptionState
state_at name (ArgumentIndex.index i) args = ok (scan_index name i args)
state_at name ArgumentIndex.all args = ok (scan_all name args)
state_at name ArgumentIndex.unset args = raise SpecError.assertion

abbrev pub state_in :
    BooleanOptionSpec → Location → List CallArgument → Result SpecError OptionState
state_in spec Location.keyword args = ok (scan_keywords spec.name args false OptionState.missing)
state_in spec Location.argument args = state_at spec.name spec.argument args

-- The state of a call whose structured arguments are given; `assertion` where the assert fails.
unfoldable pub state : BooleanOptionSpec → Option (List CallArgument) → Result SpecError OptionState
unfolding scan_all scan_index scan_keywords current_state
state spec none = ok OptionState.unknown
state spec (some args) = state_in spec spec.location args
