-- ===== src/Rules/CallOptions/Keywords.antt =====
-- What a keyword of a call is bound to, and what a selector of
-- scanner/src/aegify/rules/call_options.py answers of it and of all arguments.
use aegify.Base.{
  ◌≡◌, ◌⊎◌, ◌∙◌, inl, inr, refl, sym, subst, ap, Bool, true, false, String, Option, none, some,
  List, [], ◌∷◌, if◌then◌else◌, str_eq, Bool-cases, Result, ok, raise,
}
use aegify.Rules.CallOptions.Arguments.{
  Literal, OptionState, Kind, BooleanOption, CallArgument, property,
}
use aegify.Rules.CallOptions.Spec.{
  Location, BooleanOptionSpec, SpecError, is_missing, current_state, scan_keywords, state_in, state,
}
use aegify.Rules.CallOptions.Values.{Held, Fits, Builds, Agrees, Fits-Agrees, property-decides}

-- What the property of an argument's object can be; an argument that is not known to be an object
-- can have any.
abbrev pub Offers : String → Option (List BooleanOption) → Held → Type 0
Offers name none h = Unit {0}
Offers name (some options) h = Builds name options Held.absent h

-- What one argument can bind the keyword to: nothing is `absent`.
abbrev pub Binds : String → CallArgument → Held → Type 0
Binds name a h = elim (a.kind) [
  | Kind.keyword ↦ if str_eq a.name name then Fits a.state h else h ≡ Held.absent
  | Kind.keyword_spread ↦ Offers name a.options h
  | Kind.unclear ↦ Unit {0}
  | _ ↦ h ≡ Held.absent
]

-- Two bindings of one keyword are an error of the call: at most one of the two is there.
abbrev Joined : Held → Held → Held → Type 0
Joined x y h = ((x ≡ Held.absent) × (h ≡ y)) ⊎ ((y ≡ Held.absent) × (h ≡ x))

-- What a call that succeeds can bind the keyword to.
abbrev pub Passes : String → List CallArgument → Held → Type 0
Passes name [] h = h ≡ Held.absent
Passes name (a ∷ rest) h = (x y : Held) × Binds name a x × Passes name rest y × Joined x y h

pub property-Offers :
    (name : String) (o : Option (List BooleanOption)) (h : Held)
    → Offers name o h
    → Agrees (property o name) h
property-Offers name none h b = tt
property-Offers name (some options) h b = (property-decides name options).0 h b

module _ (name : String) where
  current-Agrees :
      (k : Kind) (key : String) (l : Literal) (o : Option (List BooleanOption)) (h : Held)
      → Binds name (record { kind = k; name = key; state = l; options = o }) h
      → Agrees (current_state name (record { kind = k; name = key; state = l; options = o })) h
  unfolding current_state
  current-Agrees Kind.keyword key l o h b = elim (Bool-cases (str_eq key name)) [
    | inl e ↦ rw e (Fits-Agrees l h (rw e at b))
    | inr e ↦ rw e (rw e at b)
  ]
  current-Agrees Kind.keyword_spread key l o h b = property-Offers name o h b
  current-Agrees Kind.unclear key l o h b = tt
  current-Agrees Kind.positional key l o h b = b
  current-Agrees Kind.spread key l o h b = b

  current_Agrees : (a : CallArgument) (h : Held) → Binds name a h → Agrees (current_state name a) h
  current_Agrees a h b = current-Agrees a.kind a.name a.state a.options h b

  missing-absent : (s : OptionState) (h : Held) → is_missing s ≡ true → Agrees s h → h ≡ Held.absent
  missing-absent OptionState.missing h e a = a
  missing-absent OptionState.on h e a = absurd (cc)
  missing-absent OptionState.off h e a = absurd (cc)
  missing-absent OptionState.unknown h e a = absurd (cc)

  first-absent : (x y h : Held) → x ≡ Held.absent → Joined x y h → h ≡ y
  first-absent x y h e (inl (p, q)) = q
  first-absent x y h e (inr (p, q)) = q ∙ e ∙ sym p

  second-absent : (x y h : Held) → y ≡ Held.absent → Joined x y h → h ≡ x
  second-absent x y h e (inl (p, q)) = q ∙ e ∙ sym p
  second-absent x y h e (inr (p, q)) = q

  scan_end : (seen : Bool) (s : OptionState) → scan_keywords name [] seen s ≡ s
  unfolding scan_keywords
  scan_end seen s = refl

  skipped :
      (b : CallArgument) (rest : List CallArgument) (seen : Bool) (s : OptionState)
      → is_missing (current_state name b) ≡ true
      → scan_keywords name (b ∷ rest) seen s ≡ scan_keywords name rest seen s
  unfolding scan_keywords
  skipped b rest seen s e = rw (e, scan_keywords)

  bound_first :
      (b : CallArgument) (rest : List CallArgument) (s : OptionState)
      → is_missing (current_state name b) ≡ false
      → scan_keywords name (b ∷ rest) false s ≡ scan_keywords name rest true (current_state name b)
  unfolding scan_keywords
  bound_first b rest s e = rw (e, scan_keywords)

  bound_again :
      (b : CallArgument) (rest : List CallArgument) (s : OptionState)
      → is_missing (current_state name b) ≡ false
      → scan_keywords name (b ∷ rest) true s ≡ OptionState.unknown
  unfolding scan_keywords
  bound_again b rest s e = rw (e, scan_keywords)

  -- Once an argument has bound the keyword, the others bind nothing, or the answer is unknown.
  seen-Agrees :
      (args : List CallArgument) (s : OptionState) (x y h : Held)
      → Agrees s x
      → Passes name args y
      → Joined x y h
      → Agrees (scan_keywords name args true s) h
  seen-Agrees [] s x y h a p j =
      rw (scan_end true s) (subst (Agrees s) (sym (second-absent x y h p j)) a)
  seen-Agrees (b ∷ rest) s x y h a (u, v, bu, pv, ju) j =
      elim (Bool-cases (is_missing (current_state name b))) [
        | inl e ↦
            let none_here = missing-absent (current_state name b) u e (current_Agrees b u bu) in
            let same : y ≡ v = first-absent u v y none_here ju in
            rw (skipped b rest true s e)
              (seen-Agrees rest s x v h a pv (subst (λ t. Joined x t h) same j))
        | inr e ↦ rw (bound_again b rest s e) tt
      ]

  unseen-Agrees :
      (args : List CallArgument) (h : Held)
      → Passes name args h
      → Agrees (scan_keywords name args false OptionState.missing) h
  unseen-Agrees [] h p = rw (scan_end false OptionState.missing) p
  unseen-Agrees (b ∷ rest) h (u, v, bu, pv, ju) =
      elim (Bool-cases (is_missing (current_state name b))) [
        | inl e ↦
            let none_here = missing-absent (current_state name b) u e (current_Agrees b u bu) in
            rw (skipped b rest false OptionState.missing e) (
              subst (Agrees (scan_keywords name rest false OptionState.missing))
                (sym (first-absent u v h none_here ju)) (unseen-Agrees rest v pv))
        | inr e ↦
            rw (bound_first b rest OptionState.missing e)
              (seen-Agrees rest (current_state name b) u v h (current_Agrees b u bu) pv ju)
      ]

abbrev pub answer : Result SpecError OptionState → OptionState
answer (ok s) = s
answer (raise e) = OptionState.unknown

keyword_answer :
    (spec : BooleanOptionSpec) (l : Location) (args : List CallArgument) (s : OptionState)
    → l ≡ Location.keyword
    → state_in spec l args ≡ ok s
    → scan_keywords spec.name args false OptionState.missing ≡ s
keyword_answer spec Location.keyword args s l e = ap answer e
keyword_answer spec Location.argument args s l e = absurd (cc)

-- What a selector of a keyword answers of a call agrees with every binding of the keyword in an
-- execution of the call that raises no error: "true" and "false" are the values passed, and
-- "missing" means that none is passed.
pub state-Passes :
    (spec : BooleanOptionSpec) (args : List CallArgument) (s : OptionState) (h : Held)
    → spec.location ≡ Location.keyword
    → state spec (some args) ≡ ok s
    → Passes spec.name args h
    → Agrees s h
unfolding state
state-Passes spec args s h l e p =
    subst (λ t. Agrees t h) (keyword_answer spec spec.location args s l e)
      (unseen-Agrees spec.name args h p)
