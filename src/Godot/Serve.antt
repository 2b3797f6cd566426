-- ===== src/Godot/Serve.antt =====
-- packages/evoid-godot/evoid_godot/hosting.py: the handlers of a game's routes. What the templates
-- `_render_index`, `_render_embed` and `_render_sw` make of a build is `Pages`.
pub mod Chunks
pub mod Download
use Prim.Native.Char.{Char, code}
use Prim.Native.String.{◌++◌ as concat}
use evoid_plugins.Prelude.{
  ℕ, zero, suc, String, Bool, true, false, ◌+◌, ◌-◌, ◌*◌, Option, none, some, List, [], ◌∷◌, ◌++◌,
  string_eq, nat_eq, ◌==◌, nat_beq, if◌then◌else◌, length, drop, ltb, leb, min,
}
use evoid_plugins.Py.Dict.{Dict, get, has_key}
use evoid_plugins.Py.Exec.{Error, value_error, Result, ok, err}
use evoid_plugins.Py.Text.Number.{decimal}
use evoid_plugins.Py.Text.Whole.{Whole, natural, negative, whole_of}
use evoid_plugins.Transport.Bytes.{Bytes, slice}
use evoid_plugins.Godot.Build.{GameBuild, GameHost, Manifest, files_of, os_error}

pub data Body : Type 0 where
  text_body : String → Body
  error_body : String → Body
  manifest_body : Manifest → Body
  bytes_body : Bytes → Body
  file_body : (name : String) → Body

pub record Response : Type 0 where
  pub status : ℕ
  pub body : Body
  pub headers : Dict String String

-- the pages of a build, and its service worker
pub record Pages : Type 0 where
  pub index : GameBuild → String
  pub embed : GameBuild → String
  pub service_worker : GameBuild → String

abbrev pub page : ℕ → Body → Response
page status body = record { status = status; body = body; headers = [] }

module _ (pages : Pages) where
  -- `_make_index_handler`
  unfoldable pub index_handler : GameHost → GameBuild → Response
  index_handler host build =
      page 200 (text_body (if host.embed_mode then pages.embed build else pages.index build))

  -- `_make_sw_handler`
  unfoldable pub sw_handler : GameBuild → Response
  sw_handler build = page 200 (text_body (pages.service_worker build))

-- `_make_manifest_handler`
unfoldable pub manifest_handler : GameBuild → Response
manifest_handler build = page 200 (manifest_body build.manifest)

-- the first of these names that is a file of the build
unfoldable pub first_file : GameBuild → List String → Option String
first_file build [] = none
first_file build (name ∷ rest) =
    let other = first_file build rest in
    if has_key (files_of build.build_dir) name then some name else other

abbrev cached : String → String → Response
cached name control = record {
  status = 200;
  body = file_body name;
  headers = ("Cache-Control", control) ∷ ("Access-Control-Allow-Origin", "*") ∷ [];
}

-- `_make_wasm_handler`
unfoldable pub wasm_handler : GameBuild → Response
wasm_handler build = elim (first_file build ("index.wasm" ∷ "godot.wasm" ∷ "engine.wasm" ∷ [])) [
  | none ↦ page 404 (error_body "engine.wasm not found")
  | some name ↦ cached name "public, max-age=31536000, immutable"
]

-- `f"{n - 1}"`
abbrev before : ℕ → String
before zero = "-1"
before (suc n) = decimal n

abbrev content_range : ℕ → ℕ → ℕ → String
content_range start end file_size =
    concat "bytes "
      (concat (decimal start) (concat "-" (concat (before end) (concat "/" (decimal file_size)))))

-- `_serve_chunk`
unfoldable pub serve_chunk : Bytes → ℕ → ℕ → Response
serve_chunk pck chunk_n chunk_size =
    let start = chunk_n * chunk_size in
    let end = min (start + chunk_size) (length pck) in
    let content = slice start (end - start) pck in
    if leb (length pck) start then page 416 (bytes_body []) else record {
      status = 206;
      body = bytes_body content;
      headers =
          ("Content-Range", content_range start end (length pck))
          ∷ ("Content-Length", decimal (length content))
          ∷ ("Cache-Control", "public, max-age=3600")
          ∷ ("Access-Control-Allow-Origin", "*")
          ∷ [];
    }

-- `f.seek` raises at a negative position. A chunk number is negative only where the query asks for it.
abbrev chunk_of : Bytes → Option Whole → ℕ → Result Response
chunk_of pck none chunk_size = err value_error
chunk_of pck (some (natural n)) chunk_size = ok (serve_chunk pck n chunk_size)
chunk_of pck (some (negative n)) chunk_size =
    if chunk_size == 0 then ok (serve_chunk pck 0 0) else err os_error

abbrev pck_or_chunk : GameBuild → String → Bytes → Option String → Result Response
pck_or_chunk build name pck none = ok (cached name "public, max-age=3600")
pck_or_chunk build name pck (some chunk_n) = chunk_of pck (whole_of chunk_n) build.chunk_size

abbrev pck_content : GameBuild → String → Bytes
pck_content build name = elim (get (files_of build.build_dir) name) [
  | none ↦ []
  | some content ↦ content
]

-- `_make_pck_handler`, on the query parameter `chunk`
unfoldable pub pck_handler : GameBuild → Option String → Result Response
pck_handler build chunk_n = elim (first_file build ("game.pck" ∷ "godot.pck" ∷ "main.pck" ∷ [])) [
  | none ↦ ok (page 404 (error_body "game.pck not found"))
  | some name ↦ pck_or_chunk build name (pck_content build name) chunk_n
]

abbrev longer : Char → Option (String × Char) → String × Char
longer c none = ("", c)
longer c (some (front, last)) = (String.◌∷◌ c front, last)

-- `(s[:-1], s[-1])`, `none` for the empty text
unfoldable pub split_last : String → Option (String × Char)
split_last String.[] = none
split_last (String.◌∷◌ c s) = some (longer c (split_last s))

abbrev times : ℕ → Whole → Whole
times unit (natural n) = natural (n * unit)
times unit (negative n) = negative (n * unit)

abbrev scaled : Option Whole → ℕ → Result Whole
scaled none unit = err value_error
scaled (some n) unit = ok (times unit n)

-- the size that the query parameter `size` asks for
unfoldable pub parse_size : Option String → ℕ → Result Whole
parse_size none chunk_size = ok (natural chunk_size)
parse_size (some size_param) chunk_size = elim (split_last size_param) [
  | none ↦ ok (natural chunk_size)
  | some (front, last) ↦
      if nat_beq (code last) b'K'
      then scaled (whole_of front) 1024
      else if nat_beq (code last) b'M'
      then scaled (whole_of front) (1024 * 1024)
      else scaled (whole_of size_param) 1
]

-- `_serve_chunk` where the size is negative: the first chunk ends before it starts, and `f.read(-1)`
-- reads the whole file; the other chunks start at a negative position.
unfoldable pub serve_negative : Bytes → ℕ → ℕ → Result Response
serve_negative pck zero size =
    if length pck == 0
    then ok (page 416 (bytes_body []))
    else if size == 1
    then ok (record {
      status = 206;
      body = bytes_body pck;
      headers =
          ("Content-Range", concat "bytes 0--2/" (decimal (length pck)))
          ∷ ("Content-Length", decimal (length pck))
          ∷ ("Cache-Control", "public, max-age=3600")
          ∷ ("Access-Control-Allow-Origin", "*")
          ∷ [];
    })
    else err value_error
serve_negative pck (suc chunk_n) size = err os_error

abbrev sized : Bytes → ℕ → Result Whole → Result Response
sized pck chunk_n (err e) = err e
sized pck chunk_n (ok (natural size)) = ok (serve_chunk pck chunk_n size)
sized pck chunk_n (ok (negative size)) = serve_negative pck chunk_n size

-- `_make_chunk_handler`, on the number in the path and the query parameter `size`
unfoldable pub chunk_handler : GameBuild → ℕ → Option String → Result Response
chunk_handler build chunk_n size_param = elim (get (files_of build.build_dir) "game.pck") [
  | none ↦ ok (page 404 (error_body "game.pck not found"))
  | some pck ↦ sized pck chunk_n (parse_size size_param build.chunk_size)
]
