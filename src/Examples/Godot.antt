-- ===== src/Examples/Godot.antt =====
-- Runs of packages/evoid-godot/evoid_godot.
use evoid_plugins.Prelude.{
  ◌≤◌, ◌≡◌, refl, String, false, some, none, [], ◌∷◌, string_eq, nat_eq, arith, if◌then◌else◌, ltb,
}
use evoid_plugins.Py.Dict.{Dict, get, has_key}
use evoid_plugins.Py.Exec.{ok, err}
use evoid_plugins.Py.Text.{has_char}
use evoid_plugins.Py.Text.Number.{int_of}
use evoid_plugins.Py.Text.Whole.{natural, whole_of}
use evoid_plugins.Py.Text.Slashes.{rstrip}
use evoid_plugins.Transport.Bytes.{Bytes}
use evoid_plugins.Godot.Build.{
  GameBuild, GameHost, ceil_div, get_build, register_build, empty_manifest, default_splash,
  os_error, zero_division_error, entries, count_pck_chunks, scan,
}
use evoid_plugins.Godot.Serve.{
  serve_chunk, bytes_body, chunk_handler, parse_size, split_last, serve_negative,
}
use evoid_plugins.Godot.Serve.Chunks.{serve_chunk-status}
use evoid_plugins.Godot.Serve.Download.{download, download-register_build}
use evoid_plugins.Godot.Dispatch.{app, not_found, game_dispatch}
use evoid_plugins.Godot.Dispatch.Paths.{game_path, game_dispatch-game_path}

abbrev pck : Bytes
pck = 71 ∷ 68 ∷ 80 ∷ 67 ∷ 2 ∷ []

abbrev files : Dict String Bytes
files = ("game.pck", pck) ∷ ("index.html", 60 ∷ []) ∷ []

abbrev same_hash : Bytes → String
same_hash _ = "d41d8cd9"

abbrev new_host : GameHost
new_host = record { builds = []; chunk_size = 2; embed_mode = false }

abbrev chess : GameBuild
chess = record {
  game_id = "chess";
  build_dir = some files;
  title = "Chess";
  splash = default_splash "Chess";
  manifest = empty_manifest "chess";
  chunk_size = 2;
}

abbrev hosting : GameHost
hosting = record new_host { builds = ("chess", chess) ∷ [] }

download-register_build_example :
    (registered : GameHost) × (build : GameBuild) × (chunks : _) × (register_build same_hash
        new_host "chess"
        (some files)
        ""
        none
      ≡ ok registered)
    × (get_build registered "chess" ≡ some build)
    × (build.manifest.pck_chunks ≡ some chunks)
    × (download build chunks 0 ≡ pck)
unfolding get
download-register_build_example =
    download-register_build same_hash new_host "chess" "" files none pck (omega arith) refl

serve_chunk-status_example :
    ((serve_chunk pck 3 2).status ≡ (if ltb 3 3 then 206 else 416))
    × (3 ≤ 3 → (serve_chunk pck 3 2).body ≡ bytes_body [])
unfolding ceil_div
serve_chunk-status_example = serve_chunk-status pck 3 2 3 (omega arith) refl

game_dispatch-game_path_example :
    game_dispatch hosting (game_path "chess" "chunk/0")
    ≡ ok (if has_key hosting.builds "chess" then app "chess" "/chunk/0" else not_found "chess")
unfolding has_char rstrip
game_dispatch-game_path_example = game_dispatch-game_path hosting "chess" "chunk/0" refl refl refl

-- The second chunk of a negative size starts before the file.
negative_size : chunk_handler chess 1 (some "-1") ≡ err os_error
unfolding chunk_handler parse_size whole_of split_last serve_negative int_of get
negative_size = refl

kilobytes : parse_size (some "64K") 2 ≡ ok (natural 65536)
unfolding parse_size whole_of split_last int_of
kilobytes = refl

-- A build with a game.pck is not registered with chunks of the size zero.
size_zero :
    register_build same_hash (record new_host { chunk_size = 0 }) "chess" (some files) "" none
    ≡ err zero_division_error
unfolding register_build scan count_pck_chunks ceil_div get entries
size_zero = refl
