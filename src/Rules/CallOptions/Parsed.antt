-- ===== src/Rules/CallOptions/Parsed.antt =====
-- What `parse` of scanner/src/aegify/rules/call_options.py accepts can be asked of every call.
use aegify.Base.{
  ◌≤◌, ◌≡◌, ◌≢◌, inl, inr, refl, subst, true, not, String, Option, none, some, List, [], ◌∷◌,
  Bool-cases, arith, any, Result, ok, raise, Dict, lookup, keys, str_mem, str_eq,
}
use aegify.Models.Values.{Value, nat, negsuc, in_range, number}
use aegify.Rules.CallOptions.Arguments.{OptionState, CallArgument}
use aegify.Rules.CallOptions.Spec.{
  Atom, Field, Location, ArgumentIndex, BooleanOptionSpec, SpecError, accepted_keys, text_of,
  bounded_name, location_of, state_named, states_named, with_state, states_of, index_of,
  argument_of, spec_at, spec_of, parse, state_in, state,
}

-- A selector of keywords has no index; one of arguments has an index below 128, or is for all.
abbrev pub Placed : Location → ArgumentIndex → Type 0
Placed Location.keyword i = i ≡ ArgumentIndex.unset
Placed Location.argument (ArgumentIndex.index n) = n ≤ 127
Placed Location.argument ArgumentIndex.all = Unit {0}
Placed Location.argument ArgumentIndex.unset = ⊥

abbrev pub Accepted : BooleanOptionSpec → Type 0
Accepted spec =
    (bounded_name spec.name ≡ true) × (spec.states ≢ []) × Placed spec.location spec.argument

in_range-le : (v : Value) → in_range 0 127 v ≡ true → number v ≤ 127
in_range-le (nat n) h = ground arith
in_range-le (negsuc n) h = omega arith
in_range-le Value.other h = omega arith

-- What every result that is no error satisfies.
abbrev Ensures : {A : Type 0} → (A → Type 0) → Result SpecError A → Type 0
Ensures P (ok a) = P a
Ensures P (raise e) = Unit {0}

index_of-Placed : (f : Option Field) → Ensures (Placed Location.argument) (index_of f)
index_of-Placed none = tt
index_of-Placed (some (Field.items xs)) = tt
index_of-Placed (some Field.mapping) = tt
index_of-Placed (some (Field.atom Atom.other)) = tt
index_of-Placed (some (Field.atom (Atom.text s))) = elim (Bool-cases (str_eq s "all")) [
  | inl e ↦ rw e tt
  | inr e ↦ rw e tt
]
index_of-Placed (some (Field.atom (Atom.int v))) = elim (Bool-cases (in_range 0 127 v)) [
  | inl e ↦ rw e (in_range-le v e)
  | inr e ↦ rw e tt
]

argument_of-Placed : (l : Location) (f : Option Field) → Ensures (Placed l) (argument_of l f)
argument_of-Placed Location.argument f = index_of-Placed f
argument_of-Placed Location.keyword none = refl
argument_of-Placed Location.keyword (some f) = tt

abbrev Nonempty : List OptionState → Type 0
Nonempty ss = ss ≢ []

with_state-nonempty :
    (o : Option OptionState) (r : Option (List OptionState)) → with_state o r ≢ some []
with_state-nonempty none r e = cc
with_state-nonempty (some s) none e = cc
with_state-nonempty (some s) (some ss) e = ground arith

named-Nonempty :
    (a : Atom) (rest : List Atom) (r : Option (List OptionState))
    → states_named (a ∷ rest) ≡ r
    → Ensures Nonempty (elim r [ none ↦ raise SpecError.bad_states | some ss ↦ ok ss ])
unfolding states_named
named-Nonempty a rest none e = tt
named-Nonempty a rest (some []) e =
    absurd (with_state-nonempty (state_named a) (states_named rest) e)
named-Nonempty a rest (some (s ∷ ss)) e = cc

states_of-Nonempty : (f : Option Field) → Ensures Nonempty (states_of f)
states_of-Nonempty none = tt
states_of-Nonempty (some (Field.atom a)) = tt
states_of-Nonempty (some Field.mapping) = tt
states_of-Nonempty (some (Field.items [])) = tt
states_of-Nonempty (some (Field.items (a ∷ rest))) =
    named-Nonempty a rest (states_named (a ∷ rest)) refl

spec_at-Accepted :
    (name : String) (ss : List OptionState) (l : Location) (r : Result SpecError ArgumentIndex)
    → bounded_name name ≡ true
    → Nonempty ss
    → Ensures (Placed l) r
    → Ensures Accepted (spec_at name ss l r)
spec_at-Accepted name ss l (ok i) b n p = (b, n, p)
spec_at-Accepted name ss l (raise e) b n p = tt

spec_of-Accepted :
    (name : String) (place : Option Field) (l : Result SpecError Location)
    (ss : Result SpecError (List OptionState))
    → bounded_name name ≡ true
    → Ensures Nonempty ss
    → Ensures Accepted (spec_of name place l ss)
spec_of-Accepted name place (raise e) ss b n = tt
spec_of-Accepted name place (ok l) (raise e) b n = tt
spec_of-Accepted name place (ok l) (ok ss) b n =
    spec_at-Accepted name ss l (argument_of l place) b n (argument_of-Placed l place)

parse-Ensures : (d : Option (Dict Field)) → Ensures Accepted (parse d)
unfolding parse
parse-Ensures none = tt
parse-Ensures (some fields) =
    elim (Bool-cases (any (λ k. not (str_mem k accepted_keys)) (keys fields))) [
      | inl e ↦ rw e tt
      | inr e ↦ elim (Bool-cases (bounded_name (text_of (lookup "name" fields)))) [
        | inl b ↦
            rw (e, b)
              (spec_of-Accepted (text_of (lookup "name" fields)) (lookup "argument" fields)
                (location_of (lookup "location" fields)) (states_of (lookup "states" fields)) b
                (states_of-Nonempty (lookup "states" fields)))
        | inr b ↦ rw (e, b) tt
      ]
    ]

Placed-answers :
    (spec : BooleanOptionSpec) (l : Location) (i : ArgumentIndex) (args : List CallArgument)
    → Placed l i
    → (s : OptionState) × (state_in (record spec { argument = i }) l args ≡ ok s)
Placed-answers spec Location.keyword i args p = (_, refl)
Placed-answers spec Location.argument (ArgumentIndex.index n) args p = (_, refl)
Placed-answers spec Location.argument ArgumentIndex.all args p = (_, refl)
Placed-answers spec Location.argument ArgumentIndex.unset args p = absurd p

Accepted-answers :
    (spec : BooleanOptionSpec) (call : Option (List CallArgument))
    → Accepted spec
    → (s : OptionState) × (state spec call ≡ ok s)
unfolding state
Accepted-answers spec none a = (OptionState.unknown, refl)
Accepted-answers spec (some args) (b, n, p) = Placed-answers spec spec.location spec.argument args p

-- A selector that parse accepts has a name of 1 to 128 code points, none of them below 32, a
-- state, and an index where and only where it needs one, below 128 or for all arguments; and state
-- answers for every call: its assertion never fails.
pub parse-answers :
    (fields : Option (Dict Field)) (spec : BooleanOptionSpec) (call : Option (List CallArgument))
    → parse fields ≡ ok spec
    → Accepted spec × ((s : OptionState) × (state spec call ≡ ok s))
parse-answers fields spec call e =
    let a : Accepted spec = subst (Ensures Accepted) e (parse-Ensures fields) in
    (a, Accepted-answers spec call a)
