-- ===== src/Kv/Postgres.antt =====
-- packages/evoid-postgresql/evoid_postgresql/__init__.py: the class `PostgresStorage`.
pub mod Refines
use evoid_plugins.Prelude.{ℕ, String, Bool, true, false, Option, none, some, if◌then◌else◌, ltb}
use evoid_plugins.Py.Exec.{Result, ok, err, Exec, pure, lift, try_except, ◌>>=◌, ◌>>◌}
use evoid_plugins.Kv.Table.{Row, row_of, Json, Table, read_cell}

-- `engine` says whether there is an engine.
pub record PostgresStorage : Type 0 where
  pub url : String
  pub engine : Bool

-- `PostgresStorage(url)`
abbrev pub create_storage : String → PostgresStorage
create_storage url = record { url = url; engine = false }

-- A column of JSON is answered as a text, or decoded.
pub data Cell (V : Type 0) : Type 0 where
  text_cell : String → Cell V
  decoded : V → Cell V

abbrev pub Method : (W A : Type 0) → Type 0
Method W A = Exec (PostgresStorage × W) A

module _ {W V : Type 0} (table : Table W (Cell V)) (json : Json V) where
  open table use {connect, create, select, insert, erase, commit, probe}

  -- a call of the driver
  abbrev pub on_world : {A : Type 0} → (W → Result A × W) → Method W A
  on_world call (s, w) = let (r, w') = call w in (r, (s, w'))

  -- `async with self._engine.begin() as conn`, where the block does not raise
  abbrev pub begin : {A : Type 0} → Method W A → Method W A
  begin block = do on_world connect; a ← block; on_world commit; pure a

  -- `json.loads(row[0]) if isinstance(row[0], str) else row[0]`
  unfoldable pub value_of : Cell V → Result V
  value_of (text_cell s) = json.loads s
  value_of (decoded v) = ok v

  abbrev with_engine : Method W (Unit {0})
  with_engine (s, w) = (ok tt, (record s { engine = true }, w))

  abbrev first_setup : Method W (Unit {0})
  first_setup = do with_engine; begin (on_world create)

  -- `_setup`
  unfoldable pub setup : Method W (Unit {0})
  setup (s, w) = if s.engine then (ok tt, (s, w)) else first_setup (s, w)

  unfoldable pub write : String → V → Option String → Method W Bool
  write key fields namespace = do
    setup
    begin (do s ← lift (json.dumps fields); on_world (insert (row_of key namespace) s))
    pure true

  unfoldable pub read : String → Option String → Method W (Option V)
  read key namespace = do
    setup
    begin (do row ← on_world (select (row_of key namespace)); lift (read_cell value_of row))

  unfoldable pub delete : String → Option String → Method W Bool
  delete key namespace = do
    setup
    begin (do count ← on_world (erase (row_of key namespace)); pure (ltb 0 count))

  unfoldable pub health : Method W Bool
  health = try_except (do setup; begin (on_world probe); pure true) (pure false)

  unfoldable pub close : Method W (Unit {0})
  close (s, w) = (ok tt, if s.engine then (record s { engine = false }, table.close w) else (s, w))
