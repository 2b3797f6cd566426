-- ===== src/Maubot/Command.antt =====
-- packages/evoid-maubot/evoid_maubot/commands.py. `A` is a dictionary of parsed arguments and `R` one
-- that a handler of an intent answers.
use Prim.Native.String.{◌++◌ as concat}
use evoid_plugins.Prelude.{
  String, Bool, Option, none, some, List, [], ◌∷◌, string_eq, ◌==◌, if◌then◌else◌,
}
use evoid_plugins.Py.Dict.{Dict}
use evoid_plugins.Py.Exec.{Result, ok}

-- A parser answers `none` where the arguments are not valid; it and the formatter may raise.
pub record CommandDef (A R : Type 0) : Type 0 where
  pub iframe_command : String
  pub description : String
  pub usage : String
  pub category : String
  pub requires_moderator : Bool
  pub arg_parser : Option (List String → Result (Option A))
  pub response_formatter : Option (R → A → Result String)

-- `{}`, and the text of `result.get('status', 'done')`
pub record Dicts (A R : Type 0) : Type 0 where
  pub no_args : A
  pub status : R → String

module _ {A R : Type 0} (dicts : Dicts A R) where
  unfoldable pub parse_args : CommandDef A R → List String → Result (Option A)
  parse_args d args = elim d.arg_parser [
    | none ↦ ok (some dicts.no_args)
    | some parser ↦ parser args
  ]

  -- `self.iframe_command or self.description`
  abbrev label : CommandDef A R → String
  label d = if d.iframe_command == "" then d.description else d.iframe_command

  unfoldable pub format_response : CommandDef A R → R → A → Result String
  format_response d result args = elim d.response_formatter [
    | none ↦ ok (concat (label d) (concat ": " (dicts.status result)))
    | some formatter ↦ formatter result args
  ]

-- the parsers that commands share
unfoldable pub parse_required_one : List String → Option (Dict String String)
parse_required_one [] = none
parse_required_one (arg ∷ args) = some (("value", arg) ∷ [])

unfoldable pub parse_optional_one : List String → Dict String String
parse_optional_one [] = ("value", "") ∷ []
parse_optional_one (arg ∷ args) = ("value", arg) ∷ []

unfoldable pub parse_no_args : List String → Dict String String
parse_no_args args = []
