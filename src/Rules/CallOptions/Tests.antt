-- ===== src/Rules/CallOptions/Tests.antt =====
-- Selectors of scanner/src/aegify/rules/call_options.py at calls such as
-- `run(command, shell=True)`, and the theorems at them.
use aegify.Base.{◌≡◌, ◌≢◌, inl, inr, refl, none, some, List, [], ◌∷◌, All, ok, Dict}
use aegify.Rules.CallOptions.Arguments.{
  Literal, OptionState, BooleanOption, Kind, CallArgument, property, scan_options,
}
use aegify.Rules.CallOptions.Spec.{
  Atom, Field, Location, ArgumentIndex, BooleanOptionSpec, parse, state,
}
use aegify.Rules.CallOptions.Values.{Held, Builds, Agrees, property-decides}
use aegify.Rules.CallOptions.Keywords.{state-Passes}
use aegify.Rules.CallOptions.Everywhere.{HoldsTrue, state-HoldsTrue}
use aegify.Rules.CallOptions.Parsed.{Accepted, parse-answers}

abbrev plain : CallArgument
plain = record { kind = Kind.positional; name = ""; state = Literal.undetermined; options = none }

abbrev shell_true : CallArgument
shell_true = record {
  kind = Kind.keyword;
  name = "shell";
  state = Literal.literal_true;
  options = none;
}

abbrev call : List CallArgument
call = plain ∷ shell_true ∷ []

abbrev shell : BooleanOptionSpec
shell = record {
  name = "shell";
  location = Location.keyword;
  states = OptionState.on ∷ [];
  argument = ArgumentIndex.unset;
}

shell_on : state shell (some call) ≡ ok OptionState.on
unfolding state
shell_on = refl

state-Passes_example : Held.held_true ≡ Held.held_true
state-Passes_example = state-Passes shell call OptionState.on Held.held_true refl shell_on (
  Held.absent,
  Held.held_true,
  refl,
  (Held.held_true, Held.absent, refl, refl, inr (refl, refl)),
  inl (refl, refl),
)

abbrev verified : CallArgument
verified = record {
  kind = Kind.positional;
  name = "";
  state = Literal.undetermined;
  options = some (record { name = some "verify"; state = Literal.literal_true } ∷ []);
}

abbrev verify_all : BooleanOptionSpec
verify_all = record {
  name = "verify";
  location = Location.argument;
  states = OptionState.on ∷ [];
  argument = ArgumentIndex.all;
}

verify_on : state verify_all (some (verified ∷ [])) ≡ ok OptionState.on
unfolding state scan_options
verify_on = refl

state-HoldsTrue_example : ((verified ∷ []) ≢ []) × All (HoldsTrue "verify") (verified ∷ [])
state-HoldsTrue_example = state-HoldsTrue verify_all (verified ∷ []) refl refl verify_on

abbrev fields : Dict Field
fields =
    ("name", Field.atom (Atom.text "shell"))
    ∷ ("location", Field.atom (Atom.text "keyword"))
    ∷ ("states", Field.items (Atom.text "true" ∷ []))
    ∷ []

parsed : parse (some fields) ≡ ok shell
unfolding parse
parsed = refl

parse-answers_example : Accepted shell × ((s : OptionState) × (state shell (some call) ≡ ok s))
parse-answers_example = parse-answers (some fields) shell (some call) parsed

-- `{verify: true, ...rest}`
abbrev overridden : List BooleanOption
overridden =
    record { name = some "verify"; state = Literal.literal_true }
    ∷ record { name = none; state = Literal.undetermined }
    ∷ []

overridden_unknown : property (some overridden) "verify" ≡ OptionState.unknown
unfolding scan_options
overridden_unknown = refl

property-decides_example :
    ((h : Held)
      → Builds "verify" overridden Held.absent h
      → Agrees (property (some overridden) "verify") h)
    × (property (some overridden) "verify" ≡ OptionState.unknown
        → (h : Held) → h ≢ Held.absent
        → Builds "verify" overridden Held.absent h)
property-decides_example = property-decides "verify" overridden
