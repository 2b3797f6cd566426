-- ===== src/Kv/Sqlite.antt =====
-- packages/evoid-sqlite/evoid_sqlite/__init__.py: the class `SQLiteStorage`.
pub mod Refines
use evoid_plugins.Prelude.{
  ℕ, String, Bool, true, false, Option, none, some, List, if◌then◌else◌, ltb,
}
use evoid_plugins.Py.Exec.{Result, ok, err, Exec, pure, lift, try_except, ◌>>=◌, ◌>>◌}
use evoid_plugins.Kv.Table.{Row, row_of, Json, Table, read_cell}

-- `conn` says whether there is a connection.
pub record SqliteStorage : Type 0 where
  pub db_path : String
  pub conn : Bool

-- `SQLiteStorage(db_path)`
abbrev pub create_storage : String → SqliteStorage
create_storage db_path = record { db_path = db_path; conn = false }

abbrev pub Method : (W A : Type 0) → Type 0
Method W A = Exec (SqliteStorage × W) A

module _ {W V : Type 0} (table : Table W String) (json : Json V) where
  open table use {select, insert, erase, list, commit, probe}

  -- a call of the driver
  abbrev pub on_world : {A : Type 0} → (W → Result A × W) → Method W A
  on_world call (s, w) = let (r, w') = call w in (r, (s, w'))

  abbrev connected : Method W (Unit {0})
  connected (s, w) = (ok tt, (record s { conn = true }, w))

  unfoldable pub connect : Method W (Unit {0})
  connect = do on_world table.connect; connected; on_world table.create; on_world commit

  unfoldable pub close : Method W (Unit {0})
  close (s, w) = (ok tt, (s, if s.conn then table.close w else w))

  -- `if not self._conn: await self.connect()`
  unfoldable pub ensure : Method W (Unit {0})
  ensure (s, w) = if s.conn then (ok tt, (s, w)) else connect (s, w)

  unfoldable pub read : String → Option String → Method W (Option V)
  read key namespace = do
    ensure
    row ← on_world (select (row_of key namespace))
    lift (read_cell json.loads row)

  unfoldable pub write : String → V → Option String → Method W Bool
  write key fields namespace = do
    ensure
    s ← lift (json.dumps fields)
    on_world (insert (row_of key namespace) s)
    on_world commit
    pure true

  unfoldable pub delete : String → Option String → Method W Bool
  delete key namespace = do
    ensure
    count ← on_world (erase (row_of key namespace))
    on_world commit
    pure (ltb 0 count)

  unfoldable pub health : Method W Bool
  health = try_except (do ensure; on_world probe; pure true) (pure false)

  unfoldable pub list_keys : Option String → Method W (List String)
  list_keys namespace = do
    ensure
    on_world (list (elim namespace [ none ↦ "default" | some n ↦ n ]))
