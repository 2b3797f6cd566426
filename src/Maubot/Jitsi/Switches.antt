-- ===== src/Maubot/Jitsi/Switches.antt =====
-- packages/evoid-maubot/evoid_jitsi_maubot/commands.py: the parsers from `_parse_large_video` on, most of
-- which take a switch. `lower` is Python's `str.lower`.
use evoid_plugins.Prelude.{
  String, Bool, true, false, Option, none, some, List, [], ◌∷◌, string_eq, if◌then◌else◌, contains,
}
use evoid_plugins.Py.Text.Whole.{Whole, natural, whole_of}
use evoid_plugins.Maubot.Jitsi.{Args, text, whole, boolean, or_default, whole_under, medium}

unfoldable pub parse_large_video : List String → Args
parse_large_video [] = []
parse_large_video (participant ∷ []) = ("participantId", text participant) ∷ []
parse_large_video (participant ∷ video_type ∷ args) =
    ("participantId", text participant) ∷ ("videoType", text video_type) ∷ []

unfoldable pub parse_ask_unmute : List String → Option Args
parse_ask_unmute [] = none
parse_ask_unmute (arg ∷ args) = some (("participantId", text arg) ∷ [])

unfoldable pub parse_approve_video : List String → Option Args
parse_approve_video [] = none
parse_approve_video (arg ∷ args) = some (("participantId", text arg) ∷ [])

unfoldable pub parse_reject_participant : List String → Option Args
parse_reject_participant (participant ∷ media_type ∷ args) =
    some (("participantId", text participant) ∷ ("mediaType", text (medium media_type)) ∷ [])
parse_reject_participant _ = none

unfoldable pub parse_show_notification : List String → Option Args
parse_show_notification [] = none
parse_show_notification (title ∷ []) = some (("title", text title) ∷ [])
parse_show_notification (title ∷ description ∷ args) =
    some (("title", text title) ∷ ("description", text description) ∷ [])

unfoldable pub parse_bandwidth : List String → Option Args
parse_bandwidth [] = none
parse_bandwidth (arg ∷ args) = whole_under "assumedBandwidthBps" (whole_of arg)

abbrev blur_of : String → String
blur_of blur_type =
    if contains ("slight-blur" ∷ "blur" ∷ "none" ∷ []) blur_type then blur_type else "blur"

unfoldable pub parse_blur : List String → Args
parse_blur args = ("blurType", text (blur_of (or_default args "blur"))) ∷ []

abbrev or_zero : Option Whole → Whole
or_zero none = natural 0
or_zero (some n) = n

abbrev elapsed_of : Option Whole → Args
elapsed_of none = []
elapsed_of (some n) = ("elapsed", whole n) ∷ []

unfoldable pub parse_meeting_timer : List String → Args
parse_meeting_timer [] = []
parse_meeting_timer (duration ∷ []) = ("duration", whole (or_zero (whole_of duration))) ∷ []
parse_meeting_timer (duration ∷ elapsed ∷ args) =
    ("duration", whole (or_zero (whole_of duration))) ∷ elapsed_of (whole_of elapsed)

unfoldable pub parse_resize_filmstrip : List String → Option Args
parse_resize_filmstrip [] = none
parse_resize_filmstrip (arg ∷ args) = whole_under "width" (whole_of arg)

abbrev size_of : Option Whole → Option Whole → Option Args
size_of (some width) (some height) = some (("width", whole width) ∷ ("height", whole height) ∷ [])
size_of _ _ = none

unfoldable pub parse_resize_large_video : List String → Option Args
parse_resize_large_video (width ∷ height ∷ args) = size_of (whole_of width) (whole_of height)
parse_resize_large_video _ = none

module _ (lower : String → String) where
  abbrev is_on : String → Bool
  is_on arg = contains ("true" ∷ "1" ∷ "on" ∷ "yes" ∷ []) (lower arg)

  -- the switch that comes first, or the default
  abbrev switched : List String → Bool → Bool
  switched [] default = default
  switched (arg ∷ args) default = is_on arg

  unfoldable pub parse_set_follow_me : List String → Args
  parse_set_follow_me [] = ("value", boolean true) ∷ ("recorderOnly", boolean false) ∷ []
  parse_set_follow_me (enabled ∷ args) =
      ("value", boolean (is_on enabled)) ∷ ("recorderOnly", boolean (switched args false)) ∷ []

  unfoldable pub parse_set_subtitles : List String → Args
  parse_set_subtitles [] = ("enabled", boolean true) ∷ ("language", text "en") ∷ []
  parse_set_subtitles (enabled ∷ args) =
      ("enabled", boolean (is_on enabled)) ∷ ("language", text (or_default args "en")) ∷ []

  unfoldable pub parse_set_tile_view : List String → Args
  parse_set_tile_view args = ("enabled", boolean (switched args true)) ∷ []

  unfoldable pub parse_lobby : List String → Args
  parse_lobby args = ("enabled", boolean (switched args true)) ∷ []

  unfoldable pub parse_audio_only : List String → Args
  parse_audio_only args = ("enabled", boolean (switched args true)) ∷ []

  unfoldable pub parse_virtual_bg : List String → Args
  parse_virtual_bg [] = ("enabled", boolean true) ∷ ("backgroundImage", text "") ∷ []
  parse_virtual_bg (enabled ∷ args) =
      ("enabled", boolean (is_on enabled)) ∷ ("backgroundImage", text (or_default args "")) ∷ []

  unfoldable pub parse_answer_knock : List String → Option Args
  parse_answer_knock (id ∷ approved ∷ args) =
      some (("id", text id) ∷ ("approved", boolean (is_on approved)) ∷ [])
  parse_answer_knock _ = none

  unfoldable pub parse_moderation : List String → Option Args
  parse_moderation (enable ∷ media_type ∷ args) =
      if contains ("audio" ∷ "video" ∷ []) media_type
      then some (("enable", boolean (is_on enable)) ∷ ("mediaType", text media_type) ∷ [])
      else none
  parse_moderation _ = none
