-- ===== src/Maubot/Jitsi.antt =====
-- packages/evoid-maubot/evoid_jitsi_maubot/commands.py: the parsers of the arguments of commands. A parser
-- answers `none` where the arguments are not valid.
pub mod Pairs
pub mod Switches
use Prim.Native.Char.{Char, code}
use evoid_plugins.Prelude.{
  String, Bool, true, false, not, Option, none, some, List, [], ◌∷◌, ◌++◌, map, string_eq, ◌==◌,
  if◌then◌else◌, contains,
}
use evoid_plugins.Py.Dict.{Dict, put}
use evoid_plugins.Py.Exec.{value_error, Result, ok, err}
use evoid_plugins.Py.Text.Once.{split_once}
use evoid_plugins.Py.Text.Slashes.{join}
use evoid_plugins.Py.Text.Whole.{Whole, natural, whole_of}

-- an argument of a command
pub data Arg : Type 0 where
  text : String → Arg
  whole : Whole → Arg
  boolean : Bool → Arg
  names : List (String × String) → Arg
  config : Dict String String → Arg

abbrev pub Args : Type 0
Args = Dict String Arg

unfoldable pub parse_required_one : List String → Option Args
parse_required_one [] = none
parse_required_one (arg ∷ args) = some (("value", text arg) ∷ [])

unfoldable pub parse_optional_one : List String → Args
parse_optional_one [] = ("value", text "") ∷ []
parse_optional_one (arg ∷ args) = ("value", text arg) ∷ []

unfoldable pub parse_no_args : List String → Args
parse_no_args args = []

unfoldable pub parse_display_name : List String → Option Args
parse_display_name [] = none
parse_display_name (arg ∷ args) = some (("displayName", text (join " " (arg ∷ args))) ∷ [])

unfoldable pub parse_password : List String → Option Args
parse_password [] = none
parse_password (arg ∷ args) = some (("password", text arg) ∷ [])

unfoldable pub parse_email : List String → Option Args
parse_email [] = none
parse_email (arg ∷ args) = some (("email", text arg) ∷ [])

unfoldable pub parse_subject : List String → Option Args
parse_subject [] = none
parse_subject (arg ∷ args) = some (("subject", text (join " " (arg ∷ args))) ∷ [])

-- `args[n] if len(args) > n else default`, on what follows the first `n` arguments
abbrev pub or_default : List String → String → String
or_default [] default = default
or_default (arg ∷ args) default = arg

unfoldable pub parse_watch : List String → Option Args
parse_watch [] = none
parse_watch (url ∷ args) = some (("url", text url) ∷ ("name", text (or_default args "")) ∷ [])

abbrev pub whole_under : String → Option Whole → Option Args
whole_under key none = none
whole_under key (some n) = some ((key, whole n) ∷ [])

unfoldable pub parse_video_quality : List String → Option Args
parse_video_quality [] = none
parse_video_quality (arg ∷ args) = whole_under "height" (whole_of arg)

-- a medium, "audio" where it is none
abbrev pub medium : String → String
medium media_type = if contains ("audio" ∷ "video" ∷ []) media_type then media_type else "audio"

unfoldable pub parse_mute_everyone : List String → Args
parse_mute_everyone args = ("mediaType", text (medium (or_default args "audio"))) ∷ []

unfoldable pub parse_mute_remote : List String → Option Args
parse_mute_remote [] = none
parse_mute_remote (participant ∷ args) =
    some (("participantId", text participant) ∷ ("mediaType", text (or_default args "audio")) ∷ [])

unfoldable pub parse_kick : List String → Option Args
parse_kick [] = none
parse_kick (arg ∷ args) = some (("participantId", text arg) ∷ [])

unfoldable pub parse_grant_moderator : List String → Option Args
parse_grant_moderator [] = none
parse_grant_moderator (arg ∷ args) = some (("participantId", text arg) ∷ [])

unfoldable pub parse_send_message : List String → Option Args
parse_send_message [] = none
parse_send_message (message ∷ args) =
    some (("message", text message) ∷ ("to", text (or_default args "")) ∷ [])

unfoldable pub parse_pin : List String → Args
parse_pin [] = ("participantId", text "") ∷ []
parse_pin (arg ∷ args) = ("participantId", text arg) ∷ []

-- `int(args[n]) if len(args) > n else 200`, which raises
abbrev int_or_200 : List String → Result Whole
int_or_200 [] = ok (natural 200)
int_or_200 (arg ∷ args) = elim (whole_of arg) [ none ↦ err value_error | some n ↦ ok n ]

abbrev tail : List String → List String
tail [] = []
tail (arg ∷ args) = args

abbrev tones_of : String → Result Whole → Result Whole → Result (Option Args)
tones_of tones (err e) pause = err e
tones_of tones (ok duration) (err e) = err e
tones_of tones (ok duration) (ok pause) =
    ok (some (("tones", text tones) ∷ ("duration", whole duration) ∷ ("pause", whole pause) ∷ []))

unfoldable pub parse_tones : List String → Result (Option Args)
parse_tones [] = ok none
parse_tones (tones ∷ args) = tones_of tones (int_or_200 args) (int_or_200 (tail args))

abbrev recorded_with : String → List String → Args
recorded_with mode [] = []
recorded_with mode (secret ∷ args) =
    if mode == "stream"
    then ("rtmpStreamKey", text secret) ∷ []
    else if mode == "file"
    then ("dropboxToken", text secret) ∷ []
    else []

unfoldable pub parse_recording : List String → Option Args
parse_recording [] = none
parse_recording (mode ∷ args) =
    if contains ("local" ∷ "file" ∷ "stream" ∷ []) mode
    then some (("mode", text mode) ∷ recorded_with mode args)
    else none

unfoldable pub parse_stop_recording : List String → Option Args
parse_stop_recording [] = none
parse_stop_recording (mode ∷ args) =
    if contains ("local" ∷ "file" ∷ "stream" ∷ []) mode
    then some (("mode", text mode) ∷ [])
    else none

unfoldable pub parse_breakout_room : List String → Args
parse_breakout_room args = ("name", text (join " " args)) ∷ []

unfoldable pub parse_close_breakout : List String → Option Args
parse_close_breakout [] = none
parse_close_breakout (arg ∷ args) = some (("roomId", text arg) ∷ [])

unfoldable pub parse_join_breakout : List String → Args
parse_join_breakout [] = ("roomId", text "") ∷ []
parse_join_breakout (arg ∷ args) = ("roomId", text arg) ∷ []

unfoldable pub parse_remove_breakout : List String → Option Args
parse_remove_breakout [] = none
parse_remove_breakout (arg ∷ args) = some (("breakoutRoomJid", text arg) ∷ [])

unfoldable pub parse_send_to_room : List String → Option Args
parse_send_to_room (participant ∷ room ∷ args) =
    some (("participantId", text participant) ∷ ("roomId", text room) ∷ [])
parse_send_to_room _ = none

unfoldable pub parse_notification : List String → Option Args
parse_notification [] = none
parse_notification (title ∷ args) =
    some (("title", text title) ∷ ("description", text (or_default args "")) ∷ [])

unfoldable pub parse_hide_notification : List String → Option Args
parse_hide_notification [] = none
parse_hide_notification (arg ∷ args) = some (("uid", text arg) ∷ [])

-- the pairs with the separator in them, split at the first one
unfoldable pub pairs : Char → List String → List (String × String)
pairs sep [] = []
pairs sep (pair ∷ args) = elim (split_once (code sep) pair) [
  | none ↦ pairs sep args
  | some both ↦ both ∷ pairs sep args
]

unfoldable pub parse_overwrite_names : List String → Option Args
parse_overwrite_names [] = none
parse_overwrite_names (arg ∷ args) = some (("names", names (pairs ":" (arg ∷ args))) ∷ [])

-- `config[k] = v` for each of the pairs
unfoldable pub put_all : Dict String String → List (String × String) → Dict String String
put_all d [] = d
put_all d ((k, v) ∷ rest) = put_all (put d k v) rest

unfoldable pub parse_overwrite_config : List String → Option Args
parse_overwrite_config [] = none
parse_overwrite_config (arg ∷ args) =
    some (("config", config (put_all [] (pairs "=" (arg ∷ args)))) ∷ [])
