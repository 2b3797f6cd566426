-- ===== src/Godot/Serve/Download.antt =====
-- From the registration of a build to its file at a client, for `register_build` and
-- `_make_chunk_handler` of packages/evoid-godot/evoid_godot/hosting.py.
use evoid_plugins.Prelude.{
  ℕ, zero, suc, ◌+◌, ◌-◌, ◌/◌, ◌<◌, ◌≡◌, refl, ap, ◌∙◌, String, false, Option, none, some, [], ◌++◌,
  length, string_eq, nat_eq, ==_iff, ◌==◌, arith, if◌then◌else◌,
}
use evoid_plugins.Py.Dict.{Dict, get}
use evoid_plugins.Py.Dict.Laws.{get-put}
use evoid_plugins.Py.Exec.{Result, ok, err}
use evoid_plugins.Transport.Bytes.{Bytes}
use evoid_plugins.Godot.Build.{
  GameBuild, GameHost, Manifest, SplashConfig, files_of, ceil_div, count_pck_chunks, scan, counted,
  stored, entries, register_build, get_build,
}
use evoid_plugins.Godot.Serve.{Response, serve_chunk, parse_size, chunk_handler}
use evoid_plugins.Godot.Serve.Chunks.{content_of, fetch, fetch-ceil_div}

abbrev answered : Result Response → Bytes
answered (err e) = []
answered (ok r) = content_of r.body

-- what a client has after it asked the route of the chunks for `count` of them from the chunk `n` on
unfoldable pub download : GameBuild → ℕ → ℕ → Bytes
download build zero n = []
download build (suc count) n = answered (chunk_handler build n none) ++ download build count (n + 1)

chunk_handler_plain :
    (build : GameBuild) (pck : Bytes) (n : ℕ)
    → get (files_of build.build_dir) "game.pck" ≡ some pck
    → chunk_handler build n none ≡ ok (serve_chunk pck n build.chunk_size)
unfolding chunk_handler parse_size
chunk_handler_plain build pck n found = rw (found, chunk_handler) refl

download-fetch :
    (build : GameBuild) (pck : Bytes) (count n : ℕ)
    → get (files_of build.build_dir) "game.pck" ≡ some pck
    → download build count n ≡ fetch pck build.chunk_size count n
unfolding download fetch
download-fetch build pck zero n found = refl
download-fetch build pck (suc count) n found =
    ap (λ r. answered r ++ download build count (n + 1)) (chunk_handler_plain build pck n found)
    ∙ ap (λ l. content_of (serve_chunk pck n build.chunk_size).body ++ l)
        (download-fetch build pck count (n + 1) found)

ceil_div_ok :
    (size chunk_size : ℕ)
    → 0 < chunk_size
    → ceil_div size chunk_size ≡ ok ((size + (chunk_size - 1)) / chunk_size)
unfolding ceil_div
ceil_div_ok size chunk_size pos = let e : (chunk_size == 0) ≡ false = ground arith in rw e refl

count_pck_chunks_ok :
    (files : Dict String Bytes) (pck : Bytes) (chunk_size : ℕ)
    → 0 < chunk_size
    → get files "game.pck" ≡ some pck
    → count_pck_chunks (some files) chunk_size ≡ ok ((length pck + (chunk_size - 1)) / chunk_size)
unfolding count_pck_chunks
count_pck_chunks_ok files pck chunk_size pos found =
    rw (found, count_pck_chunks) (ceil_div_ok (length pck) chunk_size pos)

scan_ok :
    (hash_of : Bytes → String) (game_id : String) (files : Dict String Bytes)
    (chunk_size chunks : ℕ)
    → count_pck_chunks (some files) chunk_size ≡ ok chunks
    → (m : Manifest) × (scan hash_of game_id (some files) chunk_size ≡ ok m)
      × (m.pck_chunks ≡ some chunks)
unfolding scan
scan_ok hash_of game_id files chunk_size chunks chunks_of =
    (_, ap (counted hash_of game_id (entries hash_of files)) chunks_of, refl)

if_same :
    (game_id : String) (b : GameBuild) (other : Option GameBuild)
    → (if game_id == game_id then some b else other) ≡ some b
if_same game_id b other = ground (arith, ==_iff game_id game_id)

stored_ok :
    (hash_of : Bytes → String) (host : GameHost) (game_id title : String)
    (files : Dict String Bytes) (splash : Option SplashConfig) (m : Manifest)
    → (registered : GameHost) × (build : GameBuild) × (stored hash_of host game_id
          (some files)
          title
          splash
          (ok m)
        ≡ ok registered)
      × (get_build registered game_id ≡ some build)
      × (build.manifest ≡ m)
      × (build.build_dir ≡ some files)
      × (build.chunk_size ≡ host.chunk_size)
unfolding get_build
stored_ok hash_of host game_id title files splash m =
    (_, _, refl, get-put host.builds game_id game_id _ ∙ if_same game_id _ _, refl, refl, refl)

-- A build with a game.pck is registered, its manifest counts the chunks, and a client that asks for
-- that many of them by the route of the chunks, without a size, has the file. The size of a chunk is
-- not zero.
pub download-register_build :
    (hash_of : Bytes → String) (host : GameHost) (game_id title : String)
    (files : Dict String Bytes) (splash : Option SplashConfig) (pck : Bytes)
    → 0 < host.chunk_size
    → get files "game.pck" ≡ some pck
    → (registered : GameHost) × (build : GameBuild) × (chunks : ℕ) × (register_build hash_of host
          game_id
          (some files)
          title
          splash
        ≡ ok registered)
      × (get_build registered game_id ≡ some build)
      × (build.manifest.pck_chunks ≡ some chunks)
      × (download build chunks 0 ≡ pck)
unfolding register_build
download-register_build hash_of host game_id title files splash pck pos found =
    let chunks = (length pck + (host.chunk_size - 1)) / host.chunk_size in
    let (m, scanned, count) =
      scan_ok hash_of game_id files host.chunk_size chunks
        (count_pck_chunks_ok files pck host.chunk_size pos found) in
    let (registered, build, store, got, its, dir, size) =
      stored_ok hash_of host game_id title files splash m in
    (
      registered,
      build,
      chunks,
      ap (stored hash_of host game_id (some files) title splash) scanned ∙ store,
      got,
      ap (λ n. n.pck_chunks) its ∙ count,
      download-fetch build pck chunks 0 (ap (λ d. get (files_of d) "game.pck") dir ∙ found)
          ∙ ap (λ c. fetch pck c chunks 0) size
          ∙ fetch-ceil_div pck host.chunk_size chunks pos
              (ceil_div_ok (length pck) host.chunk_size pos),
    )
