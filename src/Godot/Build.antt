-- ===== src/Godot/Build.antt =====
-- packages/evoid-godot/evoid_godot/hosting.py: `GameBuild` and the registration of builds in `GameHost`.
-- The files of a build stay as they are. `hash_of` is the start of the MD5 of the first 4096 bytes of a file.
use evoid_plugins.Prelude.{
  ℕ, String, Bool, ◌+◌, ◌-◌, ◌/◌, Option, none, some, List, [], ◌∷◌, map, string_eq, nat_eq, ◌==◌,
  if◌then◌else◌, length,
}
use evoid_plugins.Py.Dict.{Dict, get, put, values}
use evoid_plugins.Py.Exec.{Error, foreign, Result, ok, err}
use evoid_plugins.Transport.Bytes.{Bytes}

-- The directory of a build: `none` where it does not exist, else its files under their relative paths,
-- in the order of `sorted`.
abbrev pub Directory : Type 0
Directory = Option (Dict String Bytes)

pub record SplashConfig : Type 0 where
  pub bg_color : String
  pub text_color : String
  pub accent_color : String
  pub logo_url : Option String
  pub title : String
  pub subtitle : String

-- `SplashConfig(title=title)`
abbrev pub default_splash : String → SplashConfig
default_splash title = record {
  bg_color = "#1a1a2e";
  text_color = "#ffffff";
  accent_color = "#e94560";
  logo_url = none;
  title = title;
  subtitle = "Powered by EVOID";
}

pub record FileEntry : Type 0 where
  pub size : ℕ
  pub hash : String

-- `total_size` and `pck_chunks` are missing where the directory does not exist.
pub record Manifest : Type 0 where
  pub game_id : String
  pub files : Dict String FileEntry
  pub total_size : Option ℕ
  pub pck_chunks : Option ℕ

pub record GameBuild : Type 0 where
  pub game_id : String
  pub build_dir : Directory
  pub title : String
  pub splash : SplashConfig
  pub manifest : Manifest
  pub chunk_size : ℕ

pub record GameHost : Type 0 where
  pub builds : Dict String GameBuild
  pub chunk_size : ℕ
  pub embed_mode : Bool

abbrev pub zero_division_error : Error
zero_division_error = foreign 2

abbrev pub file_not_found_error : Error
file_not_found_error = foreign 3

abbrev pub os_error : Error
os_error = foreign 4

abbrev pub files_of : Directory → Dict String Bytes
files_of none = []
files_of (some files) = files

-- `-(-size // chunk_size)`
unfoldable pub ceil_div : ℕ → ℕ → Result ℕ
ceil_div size chunk_size =
    if chunk_size == 0 then err zero_division_error else ok ((size + (chunk_size - 1)) / chunk_size)

-- `_count_pck_chunks`
unfoldable pub count_pck_chunks : Directory → ℕ → Result ℕ
count_pck_chunks dir chunk_size = elim (get (files_of dir) "game.pck") [
  | none ↦ ok 0
  | some pck ↦ ceil_div (length pck) chunk_size
]

unfoldable pub sum : List ℕ → ℕ
sum [] = 0
sum (n ∷ ns) = n + sum ns

abbrev pub empty_manifest : String → Manifest
empty_manifest game_id = record {
  game_id = game_id;
  files = [];
  total_size = none;
  pck_chunks = none;
}

module _ (hash_of : Bytes → String) where
  unfoldable pub entries : Dict String Bytes → Dict String FileEntry
  entries [] = []
  entries ((name, content) ∷ rest) =
      (name, record { size = length content; hash = hash_of content }) ∷ entries rest

  abbrev pub counted : String → Dict String FileEntry → Result ℕ → Result Manifest
  counted game_id files (err e) = err e
  counted game_id files (ok chunks) = ok (record {
    game_id = game_id;
    files = files;
    total_size = some (sum (map (λ f. f.size) (values files)));
    pck_chunks = some chunks;
  })

  -- the manifest that `scan` makes
  unfoldable pub scan : String → Directory → ℕ → Result Manifest
  scan game_id none chunk_size = ok (empty_manifest game_id)
  scan game_id (some files) chunk_size =
      counted game_id (entries files) (count_pck_chunks (some files) chunk_size)

  -- `title or game_id`
  abbrev title_or : String → String → String
  title_or title game_id = if title == "" then game_id else title

  abbrev splash_or : Option SplashConfig → String → SplashConfig
  splash_or none title = default_splash title
  splash_or (some splash) title = splash

  abbrev pub stored :
      GameHost
      → String
      → Directory
      → String
      → Option SplashConfig
      → Result Manifest
      → Result GameHost
  stored host game_id dir title splash (err e) = err e
  stored host game_id dir title splash (ok manifest) = ok (record host {
    builds = put host.builds game_id (record {
      game_id = game_id;
      build_dir = dir;
      title = title_or title game_id;
      splash = splash_or splash (title_or title game_id);
      manifest = manifest;
      chunk_size = host.chunk_size;
    });
  })

  -- A raise leaves the host as it was.
  unfoldable pub register_build :
      GameHost → String → Directory → String → Option SplashConfig → Result GameHost
  register_build host game_id none title splash = err file_not_found_error
  register_build host game_id (some files) title splash =
      stored host game_id (some files) title splash (scan game_id (some files) host.chunk_size)

unfoldable pub get_build : GameHost → String → Option GameBuild
get_build host game_id = get host.builds game_id
