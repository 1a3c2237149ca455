-- ===== src/Scanner/Calls/Scores.antt =====
-- jvm_overload_score of scanner/src/aegify/semantic/signatures.py, with what it reads of FunctionDef
-- and CallSite (scanner/src/aegify/models.py), and the bounds of a score.
use aegify.Base.{
  ℕ, suc, zero, refl, ◌+◌, ◌*◌, ◌≤◌, ◌&&◌, ◌≡◌, not, Bool, true, false, String, Option, none, some,
  List, [], ◌∷◌, ltb, ◌==◌, length, get_elem?, if◌then◌else◌, str_eq, arith, Bool-cases,
  Option-cases, inl, inr,
}
use aegify.Scanner.Calls.Types.{Characters, type_compatibility, type_compatibility-le}

pub data Language : Type 0 where
  python : Language
  javascript : Language
  typescript : Language
  java : Language
  go : Language
  rust : Language
  swift : Language
  kotlin : Language

-- What is read of a function. The address is Python's `id`.
pub record FunctionDef : Type 0 where
  pub address : ℕ
  pub qualified_name : String
  pub file_path : String
  pub parameters : List String
  pub parameter_types : List String
  pub parameter_defaults : List Bool
  pub variadic : Bool
  pub class_name : Option String
  pub repository_id : String
  pub symbol_id : String
  pub language : Option Language

-- What is read of a call.
pub record CallSite : Type 0 where
  pub callee : String
  pub file_path : String
  pub line : ℕ
  pub column : ℕ
  pub arguments : List String
  pub argument_types : List String
  pub receiver : Option String
  pub receiver_type : String
  pub in_function : Option String
  pub caller_symbol_id : String
  pub repository_id : String

-- The first `n` of the values, with the given one for those that are missing.
abbrev padded {ℓ} : {A : Type ℓ} → ℕ → A → List A → List A
padded zero v xs = []
padded (suc n) v [] = v ∷ padded n v []
padded (suc n) v (x ∷ xs) = x ∷ padded n v xs

-- The loop of the sum, from an index on.
abbrev pub required_from : Bool → ℕ → ℕ → List Bool → ℕ
required_from variadic count index [] = 0
required_from variadic count index (has_default ∷ defaults) =
    let rest = required_from variadic count (suc index) defaults in
    if not has_default && not (variadic && suc index == count) then suc rest else rest

abbrev pub required : FunctionDef → ℕ
required f =
    let count = length f.parameters in
    required_from f.variadic count 0 (padded count false f.parameter_defaults)

-- `parameter_types[min(index, parameter_count - 1)]`, where there is a parameter.
abbrev type_at : ℕ → ℕ → List String → Option String
type_at index zero types = none
type_at index (suc last) types = get_elem? types (if ltb index last then index else last)

module _ (characters : Characters) where
  -- A parameter's type, or none where there is no parameter.
  abbrev compatible : String → Option String → Option ℕ
  compatible actual none = none
  compatible actual (some expected) = type_compatibility characters actual expected

  abbrev add : ℕ → Option ℕ → Option ℕ
  add score none = none
  add score (some n) = some (score + n)

  -- The loop over the types of the arguments, from an index on; its `continue` is a 0.
  unfoldable pub type_scores : ℕ → List String → ℕ → List String → Option ℕ
  type_scores count types index [] = some 0
  type_scores count types index (actual ∷ rest) =
      let later = type_scores count types (suc index) rest in
      if str_eq actual "" then later else elim (compatible actual (type_at index count types)) [
        | none ↦ none
        | some n ↦ add n later
      ]

  unfoldable pub jvm_overload_score : CallSite → FunctionDef → Option ℕ
  jvm_overload_score call function =
      let argument_count = length call.arguments in
      let parameter_count = length function.parameters in
      if ltb argument_count (required function)
      then none
      else (if not function.variadic && ltb parameter_count argument_count
          then none
          else add (if argument_count == parameter_count then 4 else 2) (
              type_scores parameter_count (padded parameter_count "" function.parameter_types) 0
                call.argument_types))

  add-cases :
      (k : ℕ) (o : Option ℕ) (n : ℕ) → add k o ≡ some n → (m : ℕ) × (o ≡ some m) × (n ≡ k + m)
  add-cases k none n h = absurd (cc)
  add-cases k (some m) n h = (m, refl, cc (h))

  compatible-le :
      (actual : String) (o : Option String) (n : ℕ) → compatible actual o ≡ some n → n ≤ 4
  compatible-le actual none n h = absurd (cc)
  compatible-le actual (some expected) n h = type_compatibility-le characters actual expected n h

  type_scores-le :
      (count : ℕ) (types : List String) (index : ℕ) (actuals : List String) (n : ℕ)
      → type_scores count types index actuals ≡ some n
      → n ≤ 4 * length actuals
  unfolding type_scores
  type_scores-le count types index [] n h = let z : zero ≡ n = cc (h) in omega arith
  type_scores-le count types index (actual ∷ rest) n h = elim (Bool-cases (str_eq actual "")) [
    | inl skipped ↦
        let later : n ≤ 4 * length rest =
          type_scores-le count types (suc index) rest n (rw skipped at h) in
        omega arith
    | inr known ↦ elim (Option-cases (compatible actual (type_at index count types))) [
      | inl e ↦ let r : none ≡ some n = rw (known, e) at h in absurd (cc)
      | inr (k, e) ↦
          let (m, later, total) = add-cases k _ n (rw (known, e) at h) in
          let first = compatible-le actual (type_at index count types) k e in
          let others = type_scores-le count types (suc index) rest m later in omega arith
    ]
  ]

  from_start :
      (exact : Bool) (o : Option ℕ) (s most : ℕ)
      → add (if exact then 4 else 2) o ≡ some s
      → ((m : ℕ) → o ≡ some m → m ≤ most)
      → (2 ≤ s) × (s ≤ 4 + most)
  from_start true o s most h few =
      let (m, e, total) = add-cases 4 o s h in let le = few m e in (omega arith, omega arith)
  from_start false o s most h few =
      let (m, e, total) = add-cases 2 o s h in let le = few m e in (omega arith, omega arith)

  -- A score is given only where the arguments are enough for the parameters without a default, and
  -- no more than the parameters unless the last is variadic. It is at least 2, and at most 4 more
  -- than 4 for each argument whose type is listed.
  pub jvm_overload_score-bounds :
      (call : CallSite) (f : FunctionDef) (s : ℕ)
      → jvm_overload_score call f ≡ some s
      → (required f ≤ length call.arguments)
        × ((not f.variadic && ltb (length f.parameters) (length call.arguments)) ≡ false)
        × (2 ≤ s)
        × (s ≤ 4 + 4 * length call.argument_types)
  unfolding jvm_overload_score
  jvm_overload_score-bounds call f s h =
      elim (Bool-cases (ltb (length call.arguments) (required f))) [
        | inl few ↦ let r : none ≡ some s = rw few at h in absurd (cc)
        | inr enough ↦
            elim (Bool-cases
              (not f.variadic && ltb (length f.parameters) (length call.arguments))) [
                | inl many ↦ let r : none ≡ some s = rw (enough, many) at h in absurd (cc)
                | inr fit ↦
                    let few =
                      type_scores-le (length f.parameters)
                        (padded (length f.parameters) "" f.parameter_types) 0 call.argument_types in
                    let (low, high) =
                      from_start (length call.arguments == length f.parameters) _ s
                        (4 * length call.argument_types) (rw (enough, fit) at h) few in
                    (ground arith, fit, low, high)
              ]
      ]
