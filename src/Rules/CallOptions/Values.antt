-- ===== src/Rules/CallOptions/Values.antt =====
-- What a property of an object literal is at run time, and that `_property`
-- (scanner/src/aegify/rules/call_options.py) says as much of it as the literal determines.
use aegify.Base.{
  ◌≡◌, ◌≢◌, ◌⊎◌, inl, inr, refl, sym, subst, String, Option, none, some, List, [], ◌∷◌,
  if◌then◌else◌, str_eq, Bool-cases,
}
use aegify.Rules.CallOptions.Arguments.{
  Literal, OptionState, BooleanOption, state_of, option_step, scan_options, property,
}

-- The value of a property: none, one of the Booleans, or another value.
pub data Held : Type 0 where
  absent held_true held_false another : Held

-- A value that an expression of a literal state can have.
abbrev pub Fits : Literal → Held → Type 0
Fits Literal.literal_true h = h ≡ Held.held_true
Fits Literal.literal_false h = h ≡ Held.held_false
Fits Literal.undetermined h = h ≢ Held.absent

-- An entry under another name changes nothing; one whose name is not known writes the property,
-- or does not.
abbrev Writes : String → Option String → Literal → Held → Held → Type 0
Writes name none l before after = (after ≡ before) ⊎ (after ≢ Held.absent)
Writes name (some key) l before after = if str_eq key name then Fits l after else after ≡ before

-- The entries of an object, evaluated in order, can take the property from one value to another.
abbrev pub Builds : String → List BooleanOption → Held → Held → Type 0
Builds name [] before after = after ≡ before
Builds name (o ∷ os) before after =
    (mid : Held) × Writes name o.name o.state before mid × Builds name os mid after

-- The value is of the state; `unknown` says nothing.
abbrev pub Agrees : OptionState → Held → Type 0
Agrees OptionState.on h = h ≡ Held.held_true
Agrees OptionState.off h = h ≡ Held.held_false
Agrees OptionState.missing h = h ≡ Held.absent
Agrees OptionState.unknown h = Unit {0}

pub Fits-Agrees : (l : Literal) (h : Held) → Fits l h → Agrees (state_of l) h
Fits-Agrees Literal.literal_true h f = f
Fits-Agrees Literal.literal_false h f = f
Fits-Agrees Literal.undetermined h f = tt

step-Agrees :
    (name : String) (key : Option String) (l : Literal) (s : OptionState) (before after : Held)
    → Agrees s before
    → Writes name key l before after
    → Agrees (option_step name key l s) after
step-Agrees name none l s before after a w = tt
step-Agrees name (some key) l s before after a w = elim (Bool-cases (str_eq key name)) [
  | inl e ↦ rw e (Fits-Agrees l after (rw e at w))
  | inr e ↦ rw e (subst (Agrees s) (sym (let k : after ≡ before = rw e at w in k)) a)
]

pub scan_options-Agrees :
    (name : String) (os : List BooleanOption) (s : OptionState) (before after : Held)
    → Agrees s before
    → Builds name os before after
    → Agrees (scan_options name os s) after
unfolding scan_options
scan_options-Agrees name [] s before after a b = subst (Agrees s) (sym b) a
scan_options-Agrees name (o ∷ os) s before after a (mid, w, b) =
    scan_options-Agrees name os (option_step name o.name o.state s) mid after
      (step-Agrees name o.name o.state s before mid a w) b

-- A value of a literal state.
abbrev some_value : Literal → Held
some_value Literal.literal_true = Held.held_true
some_value Literal.literal_false = Held.held_false
some_value Literal.undetermined = Held.another

some_value-Fits : (l : Literal) → Fits l (some_value l)
some_value-Fits Literal.literal_true = refl
some_value-Fits Literal.literal_false = refl
some_value-Fits Literal.undetermined = cc

undetermined_lem : (l : Literal) → state_of l ≡ OptionState.unknown → l ≡ Literal.undetermined
undetermined_lem Literal.literal_true e = absurd (cc)
undetermined_lem Literal.literal_false e = absurd (cc)
undetermined_lem Literal.undetermined e = refl

-- Where the scan ends in `unknown`, any present value can come out, or the scan began in `unknown`
-- and nothing that follows writes the property.
abbrev Open : String → List BooleanOption → OptionState → Held → Held → Type 0
Open name os s before h =
    Builds name os before h ⊎ ((s ≡ OptionState.unknown) × ((x : Held) → Builds name os x x))

module _ (name : String) (h : Held) (present : h ≢ Held.absent) where
  Open-step :
      (key : Option String) (l : Literal) (os : List BooleanOption) (s : OptionState)
      (before : Held)
      → ((b : Held) → Open name os (option_step name key l s) b h)
      → ((mid : Held) × Writes name key l before mid × Builds name os mid h)
        ⊎ ((s ≡ OptionState.unknown)
            × ((x : Held) → (mid : Held) × Writes name key l x mid × Builds name os mid x))
  Open-step none l os s before r = elim (r before) [
    | inl b ↦ inl (before, inl refl, b)
    | inr (e, keep) ↦ inl (h, inr present, keep h)
  ]
  Open-step (some key) l os s before r = elim (Bool-cases (str_eq key name)) [
    | inl e ↦
        let r' : (b : Held) → Open name os (state_of l) b h = rw e at r in
        elim (r' (some_value l)) [
          | inl b ↦ inl (some_value l, rw e (some_value-Fits l), b)
          | inr (u, keep) ↦ inl (h, rw (e, undetermined_lem l u) present, keep h)
        ]
    | inr e ↦
        let r' : (b : Held) → Open name os s b h = rw e at r in
        elim (r' before) [
          | inl b ↦ inl (before, rw e refl, b)
          | inr (u, keep) ↦ inr (u, λ x. (x, rw e refl, keep x))
        ]
  ]

  scan_options-Open :
      (os : List BooleanOption) (s : OptionState) (before : Held)
      → scan_options name os s ≡ OptionState.unknown
      → Open name os s before h
  unfolding scan_options
  scan_options-Open [] s before e = inr (e, λ x. refl)
  scan_options-Open (o ∷ os) s before e =
      Open-step o.name o.state os s before (λ b. scan_options-Open os _ b e)

  unknown-Builds :
      (os : List BooleanOption)
      → scan_options name os OptionState.missing ≡ OptionState.unknown
      → Builds name os Held.absent h
  unknown-Builds os e = elim (scan_options-Open os OptionState.missing Held.absent e) [
    | inl b ↦ b
    | inr (u, keep) ↦ absurd (cc (u))
  ]

-- Whatever value a property has once the entries of an object literal are evaluated, it agrees with
-- the answer of _property: "true", "false" and "missing" are certain. Where the answer is "unknown"
-- every value is possible that is there at all, both Booleans among them.
pub property-decides :
    (name : String) (options : List BooleanOption)
    → ((h : Held) → Builds name options Held.absent h → Agrees (property (some options) name) h)
      × (property (some options) name ≡ OptionState.unknown
          → (h : Held) → h ≢ Held.absent
          → Builds name options Held.absent h)
property-decides name options = (
  λ h b. scan_options-Agrees name options OptionState.missing Held.absent h refl b,
  λ e h present. unknown-Builds name h present options e,
)
