-- ===== src/Rules/CallOptions/Everywhere.antt =====
-- What a selector of all arguments (scanner/src/aegify/rules/call_options.py) answers.
use aegify.Base.{
  ◌≡◌, ◌≢◌, inl, inr, refl, subst, ap, true, false, String, some, List, [], ◌∷◌, Bool-cases, any,
  All, map, ok, either_false,
}
use aegify.Rules.CallOptions.Arguments.{OptionState, CallArgument, property}
use aegify.Rules.CallOptions.Spec.{
  Location, ArgumentIndex, BooleanOptionSpec, is_positional, is_state, positional_state, scan_all,
  worst, state_in, state,
}
use aegify.Rules.CallOptions.Values.{Held, Agrees}
use aegify.Rules.CallOptions.Keywords.{Offers, answer, property-Offers}

-- One argument of a call whose objects all hold `true`.
abbrev pub HoldsTrue : String → CallArgument → Type 0
HoldsTrue name a =
    (is_positional a.kind ≡ true) × ((h : Held) → Offers name a.options h → h ≡ Held.held_true)

all_answer :
    (spec : BooleanOptionSpec) (l : Location) (i : ArgumentIndex) (args : List CallArgument)
    → l ≡ Location.argument
    → i ≡ ArgumentIndex.all
    → state_in (record spec { argument = i }) l args ≡ ok OptionState.on
    → scan_all spec.name args ≡ OptionState.on
all_answer spec Location.keyword i args l j e = absurd (cc)
all_answer spec Location.argument (ArgumentIndex.index n) args l j e = absurd (cc)
all_answer spec Location.argument ArgumentIndex.all args l j e = ap answer e
all_answer spec Location.argument ArgumentIndex.unset args l j e = absurd (cc)

only_on :
    (s : OptionState)
    → is_state OptionState.off s ≡ false
    → is_state OptionState.missing s ≡ false
    → is_state OptionState.unknown s ≡ false
    → s ≡ OptionState.on
only_on OptionState.on p q r = refl
only_on OptionState.off p q r = absurd (cc)
only_on OptionState.missing p q r = absurd (cc)
only_on OptionState.unknown p q r = absurd (cc)

All-on :
    (ss : List OptionState)
    → any (is_state OptionState.off) ss ≡ false
    → any (is_state OptionState.missing) ss ≡ false
    → any (is_state OptionState.unknown) ss ≡ false
    → All (λ s. s ≡ OptionState.on) ss
All-on [] p q r = tt
All-on (s ∷ ss) p q r =
    let (a, as') = either_false (is_state OptionState.off s) _ p in
    let (b, bs) = either_false (is_state OptionState.missing s) _ q in
    let (c, cs) = either_false (is_state OptionState.unknown s) _ r in
    (only_on s a b c, All-on ss as' bs cs)

worst-on :
    (ss : List OptionState)
    → worst ss ≡ OptionState.on
    → (ss ≢ []) × All (λ s. s ≡ OptionState.on) ss
worst-on [] e = absurd (cc)
worst-on (s ∷ ss) e = elim (Bool-cases (any (is_state OptionState.off) (s ∷ ss))) [
  | inl p ↦ let e' : OptionState.off ≡ OptionState.on = rw p at e in absurd (cc)
  | inr p ↦ elim (Bool-cases (any (is_state OptionState.missing) (s ∷ ss))) [
    | inl q ↦ let e' : OptionState.missing ≡ OptionState.on = rw (p, q) at e in absurd (cc)
    | inr q ↦ elim (Bool-cases (any (is_state OptionState.unknown) (s ∷ ss))) [
      | inl r ↦ let e' : OptionState.unknown ≡ OptionState.on = rw (p, q, r) at e in absurd (cc)
      | inr r ↦ ((cc), All-on (s ∷ ss) p q r)
    ]
  ]
]

one-HoldsTrue :
    (name : String) (a : CallArgument) → positional_state name a ≡ OptionState.on → HoldsTrue name a
one-HoldsTrue name a e = elim (Bool-cases (is_positional a.kind)) [
  | inl p ↦
      let on : property a.options name ≡ OptionState.on = rw p at e in
      (p, λ h o. subst (λ t. Agrees t h) on (property-Offers name a.options h o))
  | inr p ↦ let e' : OptionState.unknown ≡ OptionState.on = rw p at e in absurd (cc)
]

each-HoldsTrue :
    (name : String) (args : List CallArgument)
    → All (λ s. s ≡ OptionState.on) (map (positional_state name) args)
    → All (HoldsTrue name) args
each-HoldsTrue name [] h = tt
each-HoldsTrue name (a ∷ rest) h = (one-HoldsTrue name a h.0, each-HoldsTrue name rest h.1)

scan_all-HoldsTrue :
    (name : String) (args : List CallArgument)
    → scan_all name args ≡ OptionState.on
    → (args ≢ []) × All (HoldsTrue name) args
unfolding scan_all
scan_all-HoldsTrue name [] e = absurd (cc)
scan_all-HoldsTrue name (a ∷ rest) e =
    ((cc), each-HoldsTrue name (a ∷ rest) (worst-on (map (positional_state name) (a ∷ rest)) e).1)

-- Where a selector of all arguments answers "true", there is an argument, and each is positional and
-- is an object whose property is `true` in every evaluation.
pub state-HoldsTrue :
    (spec : BooleanOptionSpec) (args : List CallArgument)
    → spec.location ≡ Location.argument
    → spec.argument ≡ ArgumentIndex.all
    → state spec (some args) ≡ ok OptionState.on
    → (args ≢ []) × All (HoldsTrue spec.name) args
unfolding state
state-HoldsTrue spec args l i e =
    scan_all-HoldsTrue spec.name args (all_answer spec spec.location spec.argument args l i e)
