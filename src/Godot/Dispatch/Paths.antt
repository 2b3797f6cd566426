-- ===== src/Godot/Dispatch/Paths.antt =====
-- Where `game_dispatch` of packages/evoid-godot/evoid_godot/hosting.py sends a request.
use Prim.Native.String.{◌++◌ as concat}
use evoid_plugins.Prelude.{
  String, Bool, true, false, ◌≡◌, refl, ap, ◌∙◌, ◌∷◌, string_eq, if◌then◌else◌,
}
use text.Mathlib.TextLemmas.{cons-append}
use evoid_plugins.Py.Dict.{has_key}
use evoid_plugins.Py.Exec.{ok, err, type_error}
use evoid_plugins.Py.Text.Laws.{split_one}
use evoid_plugins.Py.Text.{split, has_char}
use evoid_plugins.Py.Text.Number.{split-concat}
use evoid_plugins.Py.Text.Slashes.{
  lstrip, rstrip, strip, is_empty, join-split, is_empty-concat, rstrip-concat, rstrip-cons,
}
use evoid_plugins.Godot.Build.{GameHost}
use evoid_plugins.Godot.Dispatch.{app, not_found, dispatch_parts, game_dispatch}

-- `/game/{game_id}/{path}`
abbrev pub game_path : String → String → String
game_path game_id path =
    String.◌∷◌ "/" (concat "game" (String.◌∷◌ "/" (concat game_id (String.◌∷◌ "/" path))))

no_slash : has_char b'/' "game" ≡ false
unfolding has_char
no_slash = refl

inner_split :
    (game_id path : String)
    → has_char b'/' game_id ≡ false
    → split b'/' (concat "game" (String.◌∷◌ "/" (concat game_id (String.◌∷◌ "/" path))))
      ≡ "game" ∷ game_id ∷ split b'/' path
inner_split game_id path plain =
    split-concat b'/' "game" "/" _ no_slash refl
    ∙ ap (λ l. "game" ∷ l) (split-concat b'/' game_id "/" path plain refl)

lstrip_slash : (t : String) → lstrip b'/' (String.◌∷◌ "/" (concat "game" t)) ≡ concat "game" t
unfolding lstrip
lstrip_slash t = rw cons-append refl

stripped :
    (game_id path : String)
    → rstrip b'/' path ≡ path
    → is_empty path ≡ false
    → strip b'/' (game_path game_id path)
      ≡ concat "game" (String.◌∷◌ "/" (concat game_id (String.◌∷◌ "/" path)))
unfolding strip
stripped game_id path stays full =
    ap (rstrip b'/') (lstrip_slash (String.◌∷◌ "/" (concat game_id (String.◌∷◌ "/" path))))
    ∙ rstrip-concat b'/' "game" _
        (rstrip-cons b'/' "/" _
          (rstrip-concat b'/' game_id _ (rstrip-cons b'/' "/" path stays full) refl)
          (is_empty-concat game_id _ refl))
        refl

-- A request below the path of a registered game goes to the game's application, under the rest of its
-- path; one below the path of another game is not found. The game's name has no slash in it, and the
-- rest is not empty and does not end with one.
pub game_dispatch-game_path :
    (host : GameHost) (game_id path : String)
    → has_char b'/' game_id ≡ false
    → rstrip b'/' path ≡ path
    → is_empty path ≡ false
    → game_dispatch host (game_path game_id path)
      ≡ ok
          (if has_key host.builds game_id then app game_id (concat "/" path) else not_found game_id)
unfolding game_dispatch dispatch_parts
game_dispatch-game_path host game_id path plain stays full =
    ap (λ p. dispatch_parts host (split b'/' p)) (stripped game_id path stays full)
    ∙ ap (dispatch_parts host) (inner_split game_id path plain)
    ∙ to_game (has_key host.builds game_id) refl
  where
    to_game :
        (b : Bool)
        → has_key host.builds game_id ≡ b
        → dispatch_parts host ("game" ∷ game_id ∷ split b'/' path)
          ≡ ok (
              if has_key host.builds game_id
              then app game_id (concat "/" path)
              else not_found game_id)
    to_game true e = rw e (ap (λ t. ok (app game_id (concat "/" t))) (join-split "/" path))
    to_game false e = rw e refl

-- A request for a path with one part, such as `/game/` under which the games should be listed, raises
-- a `TypeError`.
pub game_dispatch_raises :
    (host : GameHost) (path : String)
    → has_char b'/' (strip b'/' path) ≡ false
    → game_dispatch host path ≡ err type_error
unfolding game_dispatch dispatch_parts
game_dispatch_raises host path one = ap (dispatch_parts host) (split_one b'/' (strip b'/' path) one)
