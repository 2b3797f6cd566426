-- ===== src/Maubot/Bot.antt =====
-- packages/evoid-maubot/evoid_maubot/__init__.py: the class `EvoidMaubot` with its own hooks, from the
-- command of a user to the answer. Matrix, the package `evoid` and `str.lower` are the interface `Host`.
pub mod Answers
use Prim.Native.String.{◌++◌ as concat}
use evoid_plugins.Prelude.{
  ℕ, String, Bool, true, false, not, ◌&&◌, Option, none, some, List, [], ◌∷◌, ◌++◌, map, string_eq,
  ◌==◌, if◌then◌else◌, contains,
}
use evoid_plugins.Py.Dict.{Dict, get, get_or, put}
use evoid_plugins.Py.Exec.{Result, ok, err, Exec, pure, lift, continue, ◌>>=◌, ◌>>◌}
use evoid_plugins.Py.Text.Slashes.{join}
use evoid_plugins.Maubot.Command.{CommandDef, Dicts, parse_args, format_response}

-- the intent of a command, its metadata as fields
pub record CommandIntent (A : Type 0) : Type 0 where
  pub name : String
  pub level : ℕ
  pub command : String
  pub args : A
  pub user : String
  pub room_id : String

pub record Event : Type 0 where
  pub sender : String
  pub room_id : String

-- `registry` is `COMMAND_REGISTRY`, and the rest the configuration; `service` says whether `start` has
-- made the service.
pub record EvoidMaubot (A R : Type 0) : Type 0 where
  pub registry : Dict String (CommandDef A R)
  pub has_evoid : Bool
  pub service : Bool
  pub command_prefix : String
  pub admin_whitelist : List String

-- `reply` answers the event, `publish` gives an intent to the message bus with its source, and `on`
-- registers the handler of a command under the name and the level of an intent.
pub record Host (A R W : Type 0) : Type 0 where
  pub reply : String → W → Result (Unit {0}) × W
  pub publish : CommandIntent A → String → W → Result (List R) × W
  pub on : (name : String) (level : ℕ) (command : String) → W → Result (Unit {0}) × W
  pub lower : String → String
  pub critical : ℕ
  pub standard : ℕ

abbrev mark : Bool → String
mark true = " (mod)"
mark false = ""

unfoldable pub category_lines : Dict String (List String) → List String
category_lines [] = []
category_lines ((cat, cmds) ∷ rest) = concat "\n" (concat cat ":") ∷ cmds ++ category_lines rest

module _ {A R : Type 0} where
  unfoldable pub register_command : EvoidMaubot A R → String → CommandDef A R → EvoidMaubot A R
  register_command b name d = record b { registry = put b.registry name d }

  unfoldable pub register_commands :
      EvoidMaubot A R → Dict String (CommandDef A R) → EvoidMaubot A R
  register_commands b [] = b
  register_commands b ((name, d) ∷ rest) = register_commands (register_command b name d) rest

  -- `_is_moderator`
  unfoldable pub is_moderator : EvoidMaubot A R → String → Bool
  is_moderator b user_id = elim b.admin_whitelist [
    | [] ↦ true
    | first ∷ rest ↦ contains (first ∷ rest) user_id
  ]

  abbrev help_line : String → String → CommandDef A R → String
  help_line prefix name d = concat "  !" (
      concat prefix (
        concat " " (
          concat name (
            concat " "
              (concat d.usage (concat (mark d.requires_moderator) (concat " — " d.description)))))))

  -- the lines of the commands under their categories
  unfoldable pub grouped :
      String → Dict String (CommandDef A R) → Dict String (List String) → Dict String (List String)
  grouped prefix [] categories = categories
  grouped prefix ((name, d) ∷ rest) categories =
      grouped prefix rest (
        put categories d.category (get_or categories d.category [] ++ help_line prefix name d ∷ []))

  -- `_help_text`
  unfoldable pub help_text : EvoidMaubot A R → String
  help_text b = join "\n" (
      concat b.command_prefix " Commands:" ∷ category_lines (grouped b.command_prefix b.registry [])
      ++ "\nType !help <command> for details." ∷ [])

module _ {A R W : Type 0} (dicts : Dicts A R) (host : Host A R W) where
  open host use {reply, publish, on, lower, critical, standard}

  abbrev pub level_of : CommandDef A R → ℕ
  level_of d = if d.requires_moderator then critical else standard

  -- `_register_intents`, on the commands of the registry
  unfoldable pub register_each : Dict String (CommandDef A R) → Exec W (Unit {0})
  register_each [] = pure tt
  register_each ((name, d) ∷ rest) = do
    on (concat "bot:" name) (level_of d) name
    register_each rest

  unfoldable pub register_intents : EvoidMaubot A R → Exec W (Unit {0})
  register_intents b = if b.service && b.has_evoid then register_each b.registry else pure tt

  -- `_make_intent`
  unfoldable pub make_intent : String → CommandDef A R → A → Event → CommandIntent A
  make_intent subcommand d args event = record {
    name = concat "bot:" subcommand;
    level = level_of d;
    command = subcommand;
    args = args;
    user = event.sender;
    room_id = event.room_id;
  }

  -- what is done with the answers of the handlers
  unfoldable pub respond : String → CommandDef A R → A → List R → Exec W (Unit {0})
  respond subcommand d args [] = reply (concat "Failed to execute: " subcommand)
  respond subcommand d args (result ∷ _) = do
    response ← lift (format_response dicts d result args)
    reply response

  unfoldable pub execute :
      EvoidMaubot A R → Event → String → CommandDef A R → Option A → Exec W (Unit {0})
  execute b event subcommand d none =
      reply (concat "Usage: !" (concat b.command_prefix (concat subcommand (concat " " d.usage))))
  execute b event subcommand d (some args) =
      if b.has_evoid
      then (do
        results ← publish (make_intent subcommand d args event) "maubot"
        respond subcommand d args results)
      else reply "EVOID runtime not available"

  unfoldable pub run_command :
      EvoidMaubot A R → Event → String → CommandDef A R → List String → Exec W (Unit {0})
  run_command b event subcommand d args =
      if d.requires_moderator && not (is_moderator b event.sender)
      then reply (concat "Command '" (concat subcommand "' requires moderator privileges"))
      else (do
        parsed_args ← lift (parse_args dicts d args)
        execute b event subcommand d parsed_args)

  unfoldable pub on_subcommand : EvoidMaubot A R → Event → String → List String → Exec W (Unit {0})
  on_subcommand b event subcommand args =
      if subcommand == "help" then reply (help_text b) else elim (get b.registry subcommand) [
        | none ↦
            reply (concat "Unknown command: " (concat subcommand (concat "\n\n" (help_text b))))
        | some d ↦ run_command b event subcommand d args
      ]

  -- `_on_command`
  unfoldable pub on_command : EvoidMaubot A R → Event → List String → Exec W (Unit {0})
  on_command b event [] = reply (help_text b)
  on_command b event (first ∷ args) = on_subcommand b event (lower first) args
