-- ===== src/Maubot/Jitsi/Pairs.antt =====
-- `_parse_overwrite_config` of packages/evoid-maubot/evoid_jitsi_maubot/commands.py on texts of pairs.
use Prim.Native.Char.{Char, code}
use Prim.Native.String.{◌++◌ as concat}
use evoid_plugins.Prelude.{
  String, Bool, true, not, ◌&&◌, ◌≡◌, refl, ap, ◌∙◌, Option, none, some, List, [], ◌∷◌, map,
  string_eq, ◌==◌, if◌then◌else◌, arith,
}
use evoid_plugins.Py.Dict.{Dict, get, put}
use evoid_plugins.Py.Dict.Laws.{get-put}
use evoid_plugins.Py.Text.{has_char}
use evoid_plugins.Py.Text.Once.{split_once-concat}
use evoid_plugins.Maubot.Jitsi.{config, pairs, put_all, parse_overwrite_config}

-- `f"{k}{sep}{v}"`
abbrev pub shown_pair : Char → String × String → String
shown_pair sep e = concat e.0 (String.◌∷◌ sep e.1)

unfoldable pub plain_keys : Char → List (String × String) → Bool
plain_keys sep [] = true
plain_keys sep (e ∷ rest) = not (has_char (code sep) e.0) && plain_keys sep rest

pairs-map :
    (sep : Char) (es : List (String × String))
    → plain_keys sep es ≡ true
    → pairs sep (map (shown_pair sep) es) ≡ es
unfolding pairs plain_keys
pairs-map sep [] plain = refl
pairs-map sep ((k, v) ∷ es) plain =
    rw (split_once-concat sep k v (ground arith), pairs)
      (ap (λ l. (k, v) ∷ l) (pairs-map sep es (ground arith)))

-- the value of the last pair with the key, or the default
unfoldable pub last_or : List (String × String) → String → Option String → Option String
last_or [] k default = default
last_or ((j, v) ∷ rest) k default = last_or rest k (if j == k then some v else default)

get-put_all :
    (es : List (String × String)) (d : Dict String String) (k : String)
    → get (put_all d es) k ≡ last_or es k (get d k)
unfolding put_all last_or
get-put_all [] d k = refl
get-put_all ((j, v) ∷ es) d k = get-put_all es (put d j v) k ∙ ap (last_or es k) (get-put d j k v)

-- Arguments that are written as key=value, with no equals sign in a key, are parsed to a configuration
-- in which each key has the value of its last pair.
pub parse_overwrite_config-map :
    (e : String × String) (es : List (String × String))
    → plain_keys "=" (e ∷ es) ≡ true
    → (d : Dict String String) × (parse_overwrite_config (map (shown_pair "=") (e ∷ es))
        ≡ some (("config", config d) ∷ []))
      × ((k : String) → get d k ≡ last_or (e ∷ es) k none)
unfolding parse_overwrite_config get
parse_overwrite_config-map e es plain = (
  put_all [] (e ∷ es),
  ap (λ l. some (("config", config (put_all [] l)) ∷ [])) (pairs-map "=" (e ∷ es) plain),
  λ k. get-put_all (e ∷ es) [] k,
)
