-- ===== src/Semantic/Scip/Symbols.antt =====
-- ScipPackageCoordinate, ScipSymbol, parse_scip_symbol and `_split_package_prefix` of
-- scanner/src/aegify/semantic/scip_symbol.py, over the code points of a text.
use aegify.Base.{
  ℕ, ◌&&◌, ◌||◌, Bool, true, false, Option, none, some, List, [], ◌∷◌, ◌++◌, ◌==◌, Codes,
  if◌then◌else◌,
}

pub record ScipPackageCoordinate : Type 0 where
  pub scheme : Codes
  pub manager : Codes
  pub name : Codes
  pub version : Codes

pub record ScipSymbol : Type 0 where
  pub raw : Codes
  pub scheme : Codes
  pub package' : Option ScipPackageCoordinate
  pub descriptors : Codes
  pub local_id : Codes

abbrev pub space : ℕ
space = b' '

-- `value.replace(" ", "  ")`
abbrev pub escape_space : Codes → Codes
escape_space [] = []
escape_space (c ∷ cs) =
    let rest = escape_space cs in if c == space then space ∷ space ∷ rest else c ∷ rest

-- `" ".join(...)` of the four fields.
unfoldable pub canonical : ScipPackageCoordinate → Codes
canonical p =
    escape_space p.scheme
    ++ (space
        ∷ (escape_space p.manager
            ++ (space ∷ (escape_space p.name ++ (space ∷ escape_space p.version)))))

-- The coordinate of four components.
abbrev pub of_four : List Codes → Option ScipPackageCoordinate
of_four (a ∷ b ∷ c ∷ d ∷ []) = some (record { scheme = a; manager = b; name = c; version = d })
of_four _ = none

-- The loop of `_split_package_prefix`: the components so far, and the current one.
unfoldable pub split_prefix : Codes → List Codes → Codes → Option (ScipPackageCoordinate × Codes)
split_prefix [] components current = none
split_prefix (c ∷ []) components current = elim (c == space) [
  | false ↦ none
  | true ↦ elim (of_four (components ++ current ∷ [])) [ some p ↦ some (p, []) | none ↦ none ]
]
split_prefix (c ∷ d ∷ rest) components current = elim (c == space) [
  | false ↦ split_prefix (d ∷ rest) components (current ++ c ∷ [])
  | true ↦ elim (d == space) [
    | true ↦ split_prefix rest components (current ++ space ∷ [])
    | false ↦ elim (of_four (components ++ current ∷ [])) [
      | some p ↦ some (p, d ∷ rest)
      | none ↦ split_prefix (d ∷ rest) (components ++ current ∷ []) []
    ]
  ]
]

-- `value.startswith(prefix)`
abbrev pub starts_with : Codes → Codes → Bool
starts_with [] cs = true
starts_with (p ∷ ps) [] = false
starts_with (p ∷ ps) (c ∷ cs) = c == p && starts_with ps cs

abbrev pub drop {ℓ} : {A : Type ℓ} {B : Type ℓ} → List B → List A → List A
drop [] xs = xs
drop (p ∷ ps) [] = []
drop (p ∷ ps) (x ∷ xs) = drop ps xs

abbrev pub is_empty {ℓ} : {A : Type ℓ} → List A → Bool
is_empty [] = true
is_empty (x ∷ xs) = false

abbrev pub local_word : Codes
local_word = b'l' ∷ b'o' ∷ b'c' ∷ b'a' ∷ b'l' ∷ []

-- The tests on the fields that the prefix was split into.
abbrev pub symbol_of : Codes → Option (ScipPackageCoordinate × Codes) → Option ScipSymbol
symbol_of value none = none
symbol_of value (some (p, descriptors)) =
    if is_empty p.scheme || (starts_with local_word p.scheme || is_empty descriptors)
    then none
    else (if is_empty p.manager || (is_empty p.name || is_empty p.version)
        then none
        else some (record {
          raw = value;
          scheme = p.scheme;
          package' = some p;
          descriptors = descriptors;
          local_id = [];
        }))

abbrev pub local_symbol : Codes → Codes → Option ScipSymbol
local_symbol value local_id =
    if is_empty local_id
    then none
    else some (record {
      raw = value;
      scheme = local_word;
      package' = none;
      descriptors = [];
      local_id = local_id;
    })

unfoldable pub parse_scip_symbol : Codes → Option ScipSymbol
parse_scip_symbol value =
    if starts_with (local_word ++ space ∷ []) value
    then local_symbol value (drop (local_word ++ space ∷ []) value)
    else symbol_of value (split_prefix value [] [])
