-- ===== src/Kv/Redis.antt =====
-- packages/evoid-redis/evoid_redis/__init__.py: the class `RedisCache`.
pub mod Restored
use Prim.Native.String.{◌++◌ as concat}
use evoid_plugins.Prelude.{
  ℕ, String, Bool, true, false, not, ◌≡◌, Option, none, some, if◌then◌else◌, ltb, nat_eq, string_eq,
  ◌==◌,
}
use evoid_plugins.Py.Dict.{Dict, get, has_key, put, remove}
use evoid_plugins.Py.Exec.{Result, ok, err, Exec, pure, lift, try_except, ◌>>=◌, ◌>>◌}
use evoid_plugins.Kv.Table.{Json}

-- The client of the server. `rows` is what the server has at a time; the laws say what a call that does
-- not raise has done, an entry with a time to live included, which goes later by itself.
pub record Server (W : Type 0) : Type 0 where
  pub from_url : String → W → Result (Unit {0}) × W
  pub fetch : String → W → Result (Option String) × W
  pub store : String → String → W → Result (Unit {0}) × W
  pub store_for : String → ℕ → String → W → Result (Unit {0}) × W
  pub erase : String → W → Result ℕ × W
  pub count : String → W → Result ℕ × W
  pub ping : W → Result Bool × W
  pub close : W → Result (Unit {0}) × W
  pub rows : W → Dict String String
  pub from_url-rows : (url : String) (w : W) → rows (from_url url w).1 ≡ rows w
  pub fetch-ok :
      (k : String) (w w' : W) (found : Option String)
      → fetch k w ≡ (ok found, w')
      → (found ≡ get (rows w) k) × (rows w' ≡ rows w)
  pub store-ok :
      {u : Unit {0}} (k s : String) (w w' : W)
      → store k s w ≡ (ok u, w')
      → rows w' ≡ put (rows w) k s
  pub store_for-ok :
      {u : Unit {0}} (k : String) (ttl : ℕ) (s : String) (w w' : W)
      → store_for k ttl s w ≡ (ok u, w')
      → rows w' ≡ put (rows w) k s

-- Values, the texts among them: `isinstance(value, str)`.
pub record Values (V : Type 0) : Type 0 where
  pub json : Json V
  pub of_text : String → V
  pub is_text : V → Option String
  pub is_text-of_text : (v : V) (s : String) → is_text v ≡ some s → v ≡ of_text s

-- `client` says whether there is a client.
pub record RedisCache : Type 0 where
  pub url : String
  pub prefix : String
  pub client : Bool

-- `RedisCache(url, prefix)`
abbrev pub create_cache : String → String → RedisCache
create_cache url prefix = record { url = url; prefix = prefix; client = false }

-- `_key`
abbrev pub key_of : RedisCache → String → String
key_of c key = concat c.prefix key

abbrev pub Method : (W A : Type 0) → Type 0
Method W A = Exec (RedisCache × W) A

module _ {W V : Type 0} (server : Server W) (values : Values V) where
  -- a call of the client, with the key
  abbrev pub on_world : {A : Type 0} → (RedisCache → W → Result A × W) → Method W A
  on_world call (c, w) = let (r, w') = call c w in (r, (c, w'))

  abbrev with_client : Method W (Unit {0})
  with_client (c, w) = (ok tt, (record c { client = true }, w))

  abbrev first_client : Method W (Unit {0})
  first_client = do on_world (λ c. server.from_url c.url); with_client

  -- `_get_client`
  unfoldable pub get_client : Method W (Unit {0})
  get_client (c, w) = if c.client then (ok tt, (c, w)) else first_client (c, w)

  -- what `get` makes of a raw text
  abbrev loaded : String → Result V → V
  loaded raw (err e) = values.of_text raw
  loaded raw (ok v) = v

  unfoldable pub restore : Option String → Option V
  restore none = none
  restore (some raw) = some (loaded raw (values.json.loads raw))

  unfoldable pub get_value : String → Method W (Option V)
  get_value key = do
    get_client
    raw ← on_world (λ c. server.fetch (key_of c key))
    pure (restore raw)

  -- `json.dumps(value) if not isinstance(value, str) else value`
  unfoldable pub encode : V → Result String
  encode v = elim (values.is_text v) [ none ↦ values.json.dumps v | some s ↦ ok s ]

  -- `if ttl`
  abbrev store_with : Option ℕ → String → String → W → Result (Unit {0}) × W
  store_with none k s = server.store k s
  store_with (some ttl) k s = if ttl == 0 then server.store k s else server.store_for k ttl s

  unfoldable pub set_value : String → V → Option ℕ → Method W Bool
  set_value key v ttl = do
    get_client
    s ← lift (encode v)
    on_world (λ c. store_with ttl (key_of c key) s)
    pure true

  unfoldable pub delete : String → Method W Bool
  delete key = do get_client; n ← on_world (λ c. server.erase (key_of c key)); pure (ltb 0 n)

  unfoldable pub exists : String → Method W Bool
  exists key = do get_client; n ← on_world (λ c. server.count (key_of c key)); pure (ltb 0 n)

  unfoldable pub health : Method W Bool
  health = try_except (do get_client; on_world (λ c. server.ping)) (pure false)

  abbrev without_client : Method W (Unit {0})
  without_client (c, w) = (ok tt, (record c { client = false }, w))

  abbrev shut : Method W (Unit {0})
  shut = do on_world (λ c. server.close); without_client

  unfoldable pub close : Method W (Unit {0})
  close (c, w) = if c.client then shut (c, w) else (ok tt, (c, w))
