-- ===== src/Agents/Exploration/Turns.antt =====
-- A turn of a model, as `_validate_turn` of scanner/src/aegify/agents/exploration.py reads it, and
-- `_valid_arguments` for the arguments of a tool.
use aegify.Base.{
  ℕ, not, ◌&&◌, ◌||◌, Bool, true, false, String, Option, none, some, List, [], ◌∷◌, ℤ, int_ltb, ltb,
  leb, if◌then◌else◌, str_eq, str_mem, distinct, codes, length, all, Dict, lookup, keys,
}

-- A JSON value in the arguments of a tool. Arrays, objects, floats and Booleans are not told apart.
pub data Argument : Type 0 where
  null : Argument
  text : String → Argument
  integer : ℤ → Argument
  other : Argument

pub record RequestItem : Type 0 where
  pub name : String
  pub arguments : Dict Argument

-- An object of the four keys, whose values have the types that the code asks for. A narrative is read
-- by a type of its own, with its list of gaps.
pub record Turn (N : Type 0) : Type 0 where
  pub kind : String
  pub requests : List RequestItem
  pub narrative : Option N
  pub citation_ids : List String

abbrev is_none {ℓ} : {A : Type ℓ} → Option A → Bool
is_none none = true
is_none (some a) = false

abbrev is_empty {ℓ} : {A : Type ℓ} → List A → Bool
is_empty [] = true
is_empty (x ∷ xs) = false

abbrev name_fits : RequestItem → Bool
name_fits item = ltb 0 (length (codes item.name)) && leb (length (codes item.name)) 64

-- The tests of all turns.
abbrev turn_fits : {N : Type 0} → Turn N → Bool
turn_fits t =
    (str_eq t.kind "tools" || str_eq t.kind "final")
    && (leb (length t.requests) 4
        && (all name_fits t.requests
            && (leb (length t.citation_ids) 16
                && (all (λ i. leb (length (codes i)) 80) t.citation_ids
                    && distinct t.citation_ids))))

-- `_validate_turn`, where `narrative_fits` says whether `_validate_narrative` accepts. A response that
-- is not such an object is `none`.
unfoldable pub validate_turn : {N : Type 0} → (N → Bool) → Option (Turn N) → Bool
validate_turn narrative_fits none = false
validate_turn narrative_fits (some t) =
    turn_fits t
    && (if str_eq t.kind "tools"
        then not (is_empty t.requests) && (is_none t.narrative && is_empty t.citation_ids)
        else is_empty t.requests && elim t.narrative [ none ↦ false | some n ↦ narrative_fits n ])

-- A property of the schema of a tool.
pub record Property : Type 0 where
  pub kind : String
  pub max_length : Option ℕ
  pub minimum : Option ℤ
  pub maximum : Option ℤ

-- `ToolSpec`, with the two parts of its input schema that are read.
pub record ToolSpec : Type 0 where
  pub name : String
  pub required : List String
  pub properties : Dict Property

-- `field.get("maxLength", 16_384)`
abbrev longest : Option ℕ → ℕ
longest none = 16384
longest (some n) = n

abbrev at_least : Option ℤ → ℤ → Bool
at_least none n = true
at_least (some m) n = not (int_ltb n m)

abbrev at_most : Option ℤ → ℤ → Bool
at_most none n = true
at_most (some m) n = not (int_ltb m n)

-- The tests of one argument.
abbrev argument_fits : Argument → Option Property → Bool
argument_fits a none = false
argument_fits Argument.null (some p) = false
argument_fits (Argument.text s) (some p) =
    str_eq p.kind "string" && leb (length (codes s)) (longest p.max_length)
argument_fits (Argument.integer n) (some p) =
    str_eq p.kind "integer" && (at_least p.minimum n && at_most p.maximum n)
argument_fits Argument.other (some p) = false

-- `_valid_arguments`. A name that is no property has none to fit.
unfoldable pub valid_arguments : Dict Argument → ToolSpec → Bool
valid_arguments arguments spec =
    all (λ name. str_mem name (keys arguments)) spec.required
    && all (λ a. argument_fits a.1 (lookup a.0 spec.properties)) arguments

abbrev is_null : Argument → Bool
is_null Argument.null = true
is_null a = false

-- The arguments without the nulls of optional properties.
abbrev pub without_nulls : ToolSpec → Dict Argument → Dict Argument
without_nulls spec [] = []
without_nulls spec ((name, a) ∷ arguments) =
    let rest = without_nulls spec arguments in
    if not (is_null a) || (str_mem name spec.required || not (str_mem name (keys spec.properties)))
    then (name, a) ∷ rest
    else rest
