-- ===== src/Godot/Dispatch.antt =====
-- packages/evoid-godot/evoid_godot/hosting.py: the applications of `create_app`, and `create_router`
-- with its `game_dispatch`.
pub mod Paths
use Prim.Native.String.{◌++◌ as concat}
use evoid_plugins.Prelude.{
  ℕ, String, Bool, true, false, Option, none, some, List, [], ◌∷◌, map, string_eq, ◌==◌,
  if◌then◌else◌,
}
use evoid_plugins.Py.Dict.{Dict, get, has_key}
use evoid_plugins.Py.Exec.{type_error, value_error, Result, ok, err}
use evoid_plugins.Py.Text.{split}
use evoid_plugins.Py.Text.Slashes.{strip, join}
use evoid_plugins.Godot.Build.{GameBuild, GameHost}

-- `create_app` for a game; the routes of the application are the handlers of Serve
unfoldable pub create_app : GameHost → String → Result GameBuild
create_app host game_id = elim (get host.builds game_id) [
  | none ↦ err value_error
  | some build ↦ ok build
]

-- What a request is answered by: the application of a game, under the rest of the path, or "not found".
pub data Target : Type 0 where
  app : (game_id path : String) → Target
  not_found : (game_id : String) → Target

abbrev known_game : Bool → String → List String → Target
known_game true game_id rest = app game_id (concat "/" (join "/" rest))
known_game false game_id rest = not_found game_id

-- The parts of a path: `game_entry` takes one argument and is called with three, so that the listing
-- of the games raises.
unfoldable pub dispatch_parts : GameHost → List String → Result Target
dispatch_parts host [] = err type_error
dispatch_parts host (first ∷ []) = err type_error
dispatch_parts host (first ∷ game_id ∷ rest) =
    if first == "game"
    then ok (known_game (has_key host.builds game_id) game_id rest)
    else err type_error

-- `game_dispatch`, on the path of the request. The host is as it was when the router was made.
unfoldable pub game_dispatch : GameHost → String → Result Target
game_dispatch host path = dispatch_parts host (split b'/' (strip b'/' path))

-- an entry of the listing that `game_entry` makes
pub record GameEntry : Type 0 where
  pub game_id : String
  pub title : String
  pub url : String
  pub total_size : ℕ

abbrev size_or : Option ℕ → ℕ
size_or none = 0
size_or (some n) = n

-- `game_entry`, where it is called with a request
unfoldable pub game_entry : Dict String GameBuild → List GameEntry
game_entry [] = []
game_entry ((gid, build) ∷ rest) =
    record {
      game_id = gid;
      title = build.title;
      url = concat "/game/" (concat gid "/");
      total_size = size_or build.manifest.total_size;
    }
    ∷ game_entry rest
