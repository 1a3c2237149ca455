-- ===== src/Rules/CallOptions/Arguments.antt =====
-- The parsed arguments of a call (BooleanOption, CallArgument and CallSite.structured_arguments of
-- scanner/src/aegify/models.py) and `_property` of scanner/src/aegify/rules/call_options.py.
use aegify.Base.{String, Option, none, some, List, [], ◌∷◌, if◌then◌else◌, str_eq}

-- The states of a literal: "true", "false" and "unknown".
pub data Literal : Type 0 where
  literal_true literal_false undetermined : Literal

-- The answers of a selector: "true", "false", "missing" and "unknown".
pub data OptionState : Type 0 where
  on off missing unknown : OptionState

pub record BooleanOption : Type 0 where
  pub name : Option String
  pub state : Literal

pub data Kind : Type 0 where
  positional keyword spread keyword_spread unclear : Kind

pub record CallArgument : Type 0 where
  pub kind : Kind
  pub name : String
  pub state : Literal
  pub options : Option (List BooleanOption)

abbrev pub state_of : Literal → OptionState
state_of Literal.literal_true = OptionState.on
state_of Literal.literal_false = OptionState.off
state_of Literal.undetermined = OptionState.unknown

-- One turn of the loop over the options.
abbrev pub option_step : String → Option String → Literal → OptionState → OptionState
option_step name none l s = OptionState.unknown
option_step name (some key) l s = if str_eq key name then state_of l else s

unfoldable pub scan_options : String → List BooleanOption → OptionState → OptionState
scan_options name [] s = s
scan_options name (o ∷ os) s = scan_options name os (option_step name o.name o.state s)

-- `_property`
abbrev pub property : Option (List BooleanOption) → String → OptionState
property none name = OptionState.unknown
property (some options) name = scan_options name options OptionState.missing
