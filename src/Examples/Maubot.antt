-- ===== src/Examples/Maubot.antt =====
-- Runs of packages/evoid-maubot/evoid_maubot.
use evoid_plugins.Prelude.{◌≡◌, refl, String, true, some, none, List, [], ◌∷◌, string_eq, contains}
use evoid_plugins.Py.Dict.{Dict, get, put}
use evoid_plugins.Py.Exec.{ok, err, value_error}
use evoid_plugins.Py.Text.{has_char}
use evoid_plugins.Py.Text.Number.{int_of}
use evoid_plugins.Py.Text.Whole.{whole_of}
use evoid_plugins.Maubot.Command.{CommandDef, Dicts, parse_required_one}
use evoid_plugins.Maubot.Bot.{
  Event, EvoidMaubot, Host, register_command, is_moderator, on_command, on_subcommand, run_command,
}
use evoid_plugins.Maubot.Bot.Answers.{recorded, Answered, on_command-Answered}
use evoid_plugins.Maubot.Jitsi.{config, parse_overwrite_config, parse_tones}
use evoid_plugins.Maubot.Jitsi.Pairs.{plain_keys, last_or, parse_overwrite_config-map}

abbrev Words : Type 0
Words = Dict String String

abbrev kick : CommandDef Words String
kick = record {
  iframe_command = "kick";
  description = "Removes a user";
  usage = "<user>";
  category = "Moderation";
  requires_moderator = true;
  arg_parser = some (λ args. ok (parse_required_one args));
  response_formatter = none;
}

abbrev dicts : Dicts Words String
dicts = record { no_args = []; status = λ result. result }

-- The world is the answers of the bot; every intent is executed.
abbrev room : Host Words String (List String)
room = record {
  reply = λ text w. (ok tt, text ∷ w);
  publish = λ i source w. (ok ("executed" ∷ []), w);
  on = λ name level command w. (ok tt, w);
  lower = λ s. s;
  critical = 2;
  standard = 1;
}

abbrev bot : EvoidMaubot Words String
bot = record {
  registry = [];
  has_evoid = true;
  service = true;
  command_prefix = "bot";
  admin_whitelist = "@admin:example.com" ∷ [];
}

abbrev from_admin : Event
from_admin = record { sender = "@admin:example.com"; room_id = "!room" }

abbrev from_guest : Event
from_guest = record { sender = "@guest:example.com"; room_id = "!room" }

on_command-Answered_example :
    Answered room
      (register_command bot "kick" kick)
      from_admin
      []
      (on_command dicts
        (recorded room)
        (register_command bot "kick" kick)
        from_admin
        ("kick" ∷ "bob" ∷ [])
        ([], [])).0
      (on_command dicts
        (recorded room)
        (register_command bot "kick" kick)
        from_admin
        ("kick" ∷ "bob" ∷ [])
        ([], [])).1.1
on_command-Answered_example =
    on_command-Answered room dicts (register_command bot "kick" kick) from_admin []
      ("kick" ∷ "bob" ∷ []) []

-- A guest is refused.
guest_refused :
    on_command dicts room (register_command bot "kick" kick) from_guest ("kick" ∷ "bob" ∷ []) []
    ≡ (ok tt, "Command 'kick' requires moderator privileges" ∷ [])
unfolding on_command on_subcommand run_command is_moderator register_command get put contains
guest_refused = refl

parse_overwrite_config-map_example :
    (d : Dict String String) × (parse_overwrite_config ("fps=30" ∷ "fps=60" ∷ [])
      ≡ some (("config", config d) ∷ []))
    × ((k : String) → get d k ≡ last_or (("fps", "30") ∷ ("fps", "60") ∷ []) k none)
unfolding plain_keys has_char
parse_overwrite_config-map_example =
    parse_overwrite_config-map ("fps", "30") (("fps", "60") ∷ []) refl

-- A duration that is no number raises, where the other parsers answer that the arguments are not valid.
tones_raise : parse_tones ("123" ∷ "long" ∷ []) ≡ err value_error
unfolding parse_tones whole_of int_of
tones_raise = refl
