-- ===== src/Kv/Scylla.antt =====
-- packages/evoid-scylla/evoid_scylla/__init__.py: the class `ScyllaStorage`.
pub mod Refines
use evoid_plugins.Prelude.{
  ℕ, String, Bool, true, false, Option, none, some, List, [], ◌∷◌, if◌then◌else◌, string_eq, ◌==◌,
}
use evoid_plugins.Py.Exec.{Result, ok, err, Exec, pure, lift, try_except, ◌>>=◌, ◌>>◌}
use evoid_plugins.Kv.Table.{Row, row_of, Json, Table, present}

-- `session` says whether there is a session.
pub record ScyllaStorage : Type 0 where
  pub contact_points : List String
  pub port : ℕ
  pub keyspace : String
  pub session : Bool

-- `create_storage`: `contact_points or ["127.0.0.1"]`
unfoldable pub create_storage : Option (List String) → ℕ → String → ScyllaStorage
create_storage contact_points port keyspace = record {
  contact_points = elim contact_points [
    | none ↦ "127.0.0.1" ∷ []
    | some points ↦ elim points [ [] ↦ "127.0.0.1" ∷ [] | p ∷ ps ↦ p ∷ ps ]
  ];
  port = port;
  keyspace = keyspace;
  session = false;
}

abbrev pub Method : (W A : Type 0) → Type 0
Method W A = Exec (ScyllaStorage × W) A

module _ {W V : Type 0} (table : Table W String) (json : Json V) where
  open table use {connect, create, select, insert, erase, probe}

  -- a call of the driver
  abbrev pub on_world : {A : Type 0} → (W → Result A × W) → Method W A
  on_world call (s, w) = let (r, w') = call w in (r, (s, w'))

  abbrev with_session : Method W (Unit {0})
  with_session (s, w) = (ok tt, (record s { session = true }, w))

  abbrev first_setup : Method W (Unit {0})
  first_setup = do on_world connect; with_session; on_world create

  -- `_setup`
  unfoldable pub setup : Method W (Unit {0})
  setup (s, w) = if s.session then (ok tt, (s, w)) else first_setup (s, w)

  -- `_execute`
  unfoldable pub execute : {A : Type 0} → (W → Result A × W) → Method W A
  execute query = do setup; on_world query

  unfoldable pub write : String → V → Option String → Method W Bool
  write key fields namespace = do
    s ← lift (json.dumps fields)
    execute (insert (row_of key namespace) s)
    pure true

  -- `if row and row.value`
  unfoldable pub loaded : Option String → Result (Option V)
  loaded none = ok none
  loaded (some s) = if s == "" then ok none else present json.loads (json.loads s)

  unfoldable pub read : String → Option String → Method W (Option V)
  read key namespace = do row ← execute (select (row_of key namespace)); lift (loaded row)

  -- `result is not None`: a query is always answered by a result
  unfoldable pub delete : String → Option String → Method W Bool
  delete key namespace = do execute (erase (row_of key namespace)); pure true

  unfoldable pub health : Method W Bool
  health = try_except (do execute probe; pure true) (pure false)

  unfoldable pub close : Method W (Unit {0})
  close (s, w) =
      (ok tt, if s.session then (record s { session = false }, table.close w) else (s, w))
