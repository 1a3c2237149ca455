-- ===== src/Scanner/Calls/Types.antt =====
-- `FunctionDef._normalize_type` of scanner/src/aegify/models.py, and normalize_jvm_type and
-- type_compatibility of scanner/src/aegify/semantic/signatures.py, over the code points of a text.
use aegify.Base.{
  ℕ, ◌≤◌, ◌≡◌, arith, ◌&&◌, ◌||◌, Bool, true, false, String, Option, none, some, List, [], ◌∷◌, leb,
  ◌==◌, any, Codes, codes, if◌then◌else◌, list_beq,
}

abbrev same : Codes → Codes → Bool
same = list_beq ◌==◌

-- The characters of Python's `\w` and `\s`.
pub record Characters : Type 0 where
  pub word : ℕ → Bool
  pub space : ℕ → Bool

-- `[A-Za-z_$]`
abbrev starts_name : ℕ → Bool
starts_name c =
    (leb b'A' c && leb c b'Z') || ((leb b'a' c && leb c b'z') || (c == b'_' || c == b'$'))

abbrev name_follows : Codes → Bool
name_follows [] = false
name_follows (c ∷ cs) = starts_name c

-- Where a match of `@[A-Za-z_$][\w$]*(?:\([^)]*\))?` is: outside of one, in the name, or in the
-- parentheses.
pub data Place : Type 0 where
  outside : Place
  in_name : Place
  in_parentheses : Place

four_at_most :
    (p q r s t : Bool) (n : ℕ)
    → (if p
        then some 0
        else (if q
            then some 4
            else (if r then (if s then none else some 1) else (if t then some 1 else none))))
      ≡ some n
    → n ≤ 4
four_at_most p q r s t n h = ground arith

module _ (characters : Characters) where
  open characters use {word, space}

  -- The text without the matches.
  abbrev pub remove_annotations : Place → Codes → Codes
  remove_annotations p [] = []
  remove_annotations Place.outside (c ∷ cs) = elim (c == b'@' && name_follows cs) [
    | true ↦ remove_annotations Place.in_name cs
    | false ↦ c ∷ remove_annotations Place.outside cs
  ]
  remove_annotations Place.in_name (c ∷ cs) = elim (starts_name c || word c) [
    | true ↦ remove_annotations Place.in_name cs
    | false ↦ elim (c == b'(' && any (λ d. d == b')') cs) [
      | true ↦ remove_annotations Place.in_parentheses cs
      | false ↦ elim (c == b'@' && name_follows cs) [
        | true ↦ remove_annotations Place.in_name cs
        | false ↦ c ∷ remove_annotations Place.outside cs
      ]
    ]
  ]
  remove_annotations Place.in_parentheses (c ∷ cs) = elim (c == b')') [
    | true ↦ remove_annotations Place.outside cs
    | false ↦ remove_annotations Place.in_parentheses cs
  ]

  -- `re.sub(r"\s+", "", candidate).strip()`
  abbrev pub remove_space : Codes → Codes
  remove_space [] = []
  remove_space (c ∷ cs) = let rest = remove_space cs in if space c then rest else c ∷ rest

  -- `candidate or "?"`
  abbrev or_unknown : Codes → Codes
  or_unknown [] = b'?' ∷ []
  or_unknown (c ∷ cs) = c ∷ cs

  -- `_normalize_type`
  abbrev pub normalize_type : Codes → Codes
  normalize_type value = or_unknown (remove_space (remove_annotations Place.outside value))

  -- `text.removesuffix(suffix)`, for a suffix that is not empty.
  abbrev pub remove_suffix : Codes → Codes → Codes
  remove_suffix suffix [] = []
  remove_suffix suffix (c ∷ cs) =
      let rest = remove_suffix suffix cs in if same (c ∷ cs) suffix then [] else c ∷ rest

  -- `text.rsplit(".", 1)[-1]`
  abbrev pub after_dot : Codes → Codes
  after_dot [] = []
  after_dot (c ∷ cs) =
      let rest = after_dot cs in if any (λ d. d == b'.') (c ∷ cs) then rest else c ∷ cs

  abbrev aliases : List (String × String)
  aliases =
      ("Boolean", "boolean")
      ∷ ("Byte", "byte")
      ∷ ("Character", "char")
      ∷ ("Char", "char")
      ∷ ("Double", "double")
      ∷ ("Float", "float")
      ∷ ("Int", "int")
      ∷ ("Integer", "int")
      ∷ ("Long", "long")
      ∷ ("Short", "short")
      ∷ ("String", "string")
      ∷ ("Nothing", "null")
      ∷ []

  -- `aliases.get(candidate, candidate)`
  abbrev pub alias_in : List (String × String) → Codes → Codes
  alias_in [] candidate = candidate
  alias_in ((name, alias) ∷ rest) candidate =
      let later = alias_in rest candidate in
      if same (codes name) candidate then codes alias else later

  unfoldable pub normalize_jvm_type : String → Codes
  normalize_jvm_type value = alias_in aliases (
      after_dot (
        remove_suffix (codes "?") (
          remove_suffix (codes "[]") (remove_suffix (codes "...") (normalize_type (codes value))))))

  abbrev pub one_of : List String → Codes → Bool
  one_of names candidate = any (λ n. same (codes n) candidate) names

  abbrev primitives : List String
  primitives = "boolean" ∷ "byte" ∷ "char" ∷ "double" ∷ "float" ∷ "int" ∷ "long" ∷ "short" ∷ []

  abbrev numeric_widening : List (String × List String)
  numeric_widening =
      ("byte", "short" ∷ "int" ∷ "long" ∷ "float" ∷ "double" ∷ [])
      ∷ ("short", "int" ∷ "long" ∷ "float" ∷ "double" ∷ [])
      ∷ ("char", "int" ∷ "long" ∷ "float" ∷ "double" ∷ [])
      ∷ ("int", "long" ∷ "float" ∷ "double" ∷ [])
      ∷ ("long", "float" ∷ "double" ∷ [])
      ∷ ("float", "double" ∷ [])
      ∷ []

  -- `expected in numeric_widening.get(actual, set())`
  abbrev pub widens : List (String × List String) → Codes → Codes → Bool
  widens [] actual expected = false
  widens ((name, wider) ∷ rest) actual expected =
      let later = widens rest actual expected in
      if same (codes name) actual then one_of wider expected else later

  abbrev is_empty : Codes → Bool
  is_empty [] = true
  is_empty (c ∷ cs) = false

  abbrev pub compatibility : Codes → Codes → Option ℕ
  compatibility actual expected =
      if is_empty actual || (is_empty expected || same expected (codes "?"))
      then some 0
      else (if same actual expected
          then some 4
          else (if same actual (codes "null")
              then (if one_of primitives expected then none else some 1)
              else (if widens numeric_widening actual expected then some 1 else none)))

  -- `type_compatibility`; its -1 is `none`.
  unfoldable pub type_compatibility : String → String → Option ℕ
  unfolding normalize_jvm_type
  type_compatibility actual expected =
      compatibility (normalize_jvm_type actual) (normalize_jvm_type expected)

  pub type_compatibility-le :
      (actual expected : String) (n : ℕ) → type_compatibility actual expected ≡ some n → n ≤ 4
  unfolding type_compatibility
  type_compatibility-le actual expected n h =
      let a = normalize_jvm_type actual in
      let e = normalize_jvm_type expected in
      four_at_most (is_empty a || (is_empty e || same e (codes "?"))) (same a e)
        (same a (codes "null")) (one_of primitives e) (widens numeric_widening a e) n h
