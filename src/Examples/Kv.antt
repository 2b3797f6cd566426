-- ===== src/Examples/Kv.antt =====
-- Runs of packages/evoid-sqlite, packages/evoid-postgresql, packages/evoid-scylla and
-- packages/evoid-redis.
use evoid_plugins.Prelude.{
  ℕ, ◌≡◌, ◌≢◌, refl, sym, ap, ◌∙◌, String, Bool, true, false, Option, some, none, List, [], ◌∷◌,
  string_eq, nat_eq, if◌then◌else◌,
}
use evoid_plugins.Py.Dict.{Dict, get, put, remove, has_key}
use evoid_plugins.Py.Exec.{ok_inj, Result, ok, err, value_error, type_error}
use evoid_plugins.Py.Value.{Atom, str, number, nil}
use evoid_plugins.Py.Text.Number.{decimal, int_of, int_of-decimal}
use evoid_plugins.Kv.Table.{Row, row_eq, row_beq, row_of, Json, Table, Shows, read_cell}
use evoid_plugins.Kv.RowStore.{KeepsValues}
use evoid_plugins.Kv.Commands.{
  Command, read_key, write_key, delete_key, Answer, value_of_key, done, serve_all, obey_all,
}
use evoid_plugins.Kv.Sqlite
use evoid_plugins.Kv.Sqlite.{SqliteStorage}
use evoid_plugins.Kv.Sqlite.Refines.{sqlite_store, sqlite-serve_all}
use evoid_plugins.Kv.Postgres
use evoid_plugins.Kv.Postgres.{PostgresStorage, Cell, text_cell, decoded}
use evoid_plugins.Kv.Postgres.Refines.{postgres_store, postgres-serve_all}
use evoid_plugins.Kv.Scylla
use evoid_plugins.Kv.Scylla.{ScyllaStorage}
use evoid_plugins.Kv.Scylla.Refines.{scylla_store, scylla-serve_all}
use evoid_plugins.Kv.Redis.{
  Server, Values, RedisCache, get_value, set_value, get_client, encode, restore,
}
use evoid_plugins.Kv.Redis.Restored.{restored, get_value-set_value}

-- JSON for the natural numbers among the atoms
abbrev dumped : Atom → Result String
dumped (number n) = ok (decimal n)
dumped _ = err type_error

abbrev read_number : Option ℕ → Result Atom
read_number none = err value_error
read_number (some n) = ok (number n)

read_back : (v : Atom) (s : String) → dumped v ≡ ok s → read_number (int_of s) ≡ ok v
read_back (number n) s h =
    let e : decimal n ≡ s = cc in
    ap (λ t. read_number (int_of t)) (sym e) ∙ ap read_number (int_of-decimal n)
read_back nil s h = cc
read_back (str t) s h = cc
read_back (Atom.enum n) s h = cc

abbrev json : Json Atom
json = record { dumps = dumped; loads = λ s. read_number (int_of s); loads-dumps = read_back }

-- a database that never fails, whose columns make `cell` of a text
module _ {C : Type 0} (cell : String → C) where
  abbrev memory : Table (Dict Row C) C
  memory = record {
    connect = λ w. (ok tt, w);
    create = λ w. (ok tt, w);
    select = λ k w. (ok (get w k), w);
    insert = λ k s w. (ok tt, put w k (cell s));
    erase = λ k w. (ok (if has_key w k then 1 else 0), remove w k);
    list = λ namespace w. (ok [], w);
    commit = λ w. (ok tt, w);
    probe = λ w. (ok tt, w);
    close = λ w. w;
    rows = λ w. w;
    stored = cell;
    connect-rows = λ w. refl;
    create-rows = λ w. refl;
    commit-ok = λ w w' ran. ap (λ r. r.1) (sym ran);
    select-ok = λ k w w' found ran. (sym (ok_inj (ap (λ r. r.0) ran)), ap (λ r. r.1) (sym ran));
    insert-ok = λ k s w w' ran. ap (λ r. r.1) (sym ran);
    erase-ok = λ k w w' n ran. (sym (ok_inj (ap (λ r. r.0) ran)), ap (λ r. r.1) (sym ran));
  }

abbrev lamp : Row
lamp = row_of "lamp" none

abbrev commands : List (Command Atom)
commands =
    write_key lamp (number 40)
    ∷ read_key lamp
    ∷ delete_key lamp
    ∷ read_key lamp
    ∷ delete_key lamp
    ∷ []

abbrev texts : Table (Dict Row String) String
texts = memory (λ s. s)

abbrev plain : KeepsValues texts json json.loads
plain text = refl

abbrev sqlite : SqliteStorage
sqlite = Sqlite.create_storage "evoid.db"

abbrev open_sqlite : SqliteStorage
open_sqlite = record { db_path = "evoid.db"; conn = true }

abbrev answers : Bool → List (Answer Atom)
answers again =
    done true ∷ value_of_key (some (number 40)) ∷ done true ∷ value_of_key none ∷ done again ∷ []

nothing : Shows json.loads [] []
unfolding read_cell get
nothing k = refl

sqlite_ran :
    serve_all (sqlite_store texts json plain) commands (sqlite, [])
    ≡ (ok (answers false), (open_sqlite, []))
unfolding serve_all Sqlite.write Sqlite.read Sqlite.delete Sqlite.ensure Sqlite.connect put get
    remove has_key read_cell decimal int_of row_beq
sqlite_ran = refl

sqlite-serve_all_example :
    (answers false ≡ (obey_all (λ b. b) commands []).0)
    × Shows json.loads [] (obey_all (λ b. b) commands []).1
sqlite-serve_all_example =
    sqlite-serve_all texts json plain commands [] (sqlite, []) (open_sqlite, []) (answers false)
      nothing sqlite_ran

abbrev cells : Table (Dict Row (Cell Atom)) (Cell Atom)
cells = memory text_cell

postgres_keeps : KeepsValues cells json (Postgres.value_of cells json)
unfolding Postgres.value_of
postgres_keeps text = refl

abbrev postgres : PostgresStorage
postgres = Postgres.create_storage "postgresql://localhost/evoid"

abbrev set_up_postgres : PostgresStorage
set_up_postgres = record { url = "postgresql://localhost/evoid"; engine = true }

no_cells : Shows (Postgres.value_of cells json) [] []
unfolding read_cell get
no_cells k = refl

postgres_ran :
    serve_all (postgres_store cells json postgres_keeps) commands (postgres, [])
    ≡ (ok (answers false), (set_up_postgres, []))
unfolding serve_all Postgres.write Postgres.read Postgres.delete Postgres.setup Postgres.value_of
    put get remove has_key read_cell decimal int_of row_beq
postgres_ran = refl

postgres-serve_all_example :
    (answers false ≡ (obey_all (λ b. b) commands []).0)
    × Shows (Postgres.value_of cells json) [] (obey_all (λ b. b) commands []).1
postgres-serve_all_example =
    postgres-serve_all cells json postgres_keeps commands [] (postgres, []) (set_up_postgres, [])
      (answers false) no_cells postgres_ran

strict : (v : Atom) → json.loads "" ≢ ok v
unfolding int_of
strict v h = cc

abbrev scylla : ScyllaStorage
scylla = record {
  contact_points = "127.0.0.1" ∷ [];
  port = 9042;
  keyspace = "evoid";
  session = false;
}

scylla_ran :
    serve_all (scylla_store texts json strict plain) commands (scylla, [])
    ≡ (ok (answers true), (record scylla { session = true }, []))
unfolding serve_all Scylla.write Scylla.read Scylla.delete Scylla.execute Scylla.setup Scylla.loaded
    put get remove has_key decimal int_of row_beq
scylla_ran = refl

scylla-serve_all_example :
    (answers true ≡ (obey_all (λ b. true) commands []).0)
    × Shows json.loads [] (obey_all (λ b. true) commands []).1
scylla-serve_all_example =
    scylla-serve_all texts json strict plain commands [] (scylla, [])
      (record scylla { session = true }, []) (answers true) nothing scylla_ran

abbrev text_in : Atom → Option String
text_in (str s) = some s
text_in _ = none

is_text_in : (v : Atom) (s : String) → text_in v ≡ some s → v ≡ str s
is_text_in (str t) s h = cc
is_text_in nil s h = cc
is_text_in (number n) s h = cc
is_text_in (Atom.enum n) s h = cc

abbrev values : Values Atom
values = record { json = json; of_text = str; is_text = text_in; is_text-of_text = is_text_in }

abbrev server : Server (Dict String String)
server = record {
  from_url = λ url w. (ok tt, w);
  fetch = λ k w. (ok (get w k), w);
  store = λ k s w. (ok tt, put w k s);
  store_for = λ k ttl s w. (ok tt, put w k s);
  erase = λ k w. (ok (if has_key w k then 1 else 0), remove w k);
  count = λ k w. (ok (if has_key w k then 1 else 0), w);
  ping = λ w. (ok true, w);
  close = λ w. (ok tt, w);
  rows = λ w. w;
  from_url-rows = λ url w. refl;
  fetch-ok = λ k w w' found ran. (sym (ok_inj (ap (λ r. r.0) ran)), ap (λ r. r.1) (sym ran));
  store-ok = λ k s w w' ran. ap (λ r. r.1) (sym ran);
  store_for-ok = λ k ttl s w w' ran. ap (λ r. r.1) (sym ran);
}

abbrev cache : RedisCache
cache = record { url = "redis://localhost:6379"; prefix = "evoid:"; client = true }

set_code :
    set_value server values "code" (str "123") (some 60) (cache, [])
    ≡ (ok true, (cache, ("evoid:code", "123") ∷ []))
unfolding set_value get_client encode put
set_code = refl

-- The text "123" comes back as the number 123.
got_number :
    get_value server values "code" (cache, ("evoid:code", "123") ∷ [])
    ≡ (ok (some (number 123)), (cache, ("evoid:code", "123") ∷ []))
unfolding get_value get_client get restore int_of
got_number = refl

get_value-set_value_example : some (number 123) ≡ some (restored server values (str "123"))
get_value-set_value_example =
    get_value-set_value server values "code" (str "123") (some 60) (cache, [])
      (cache, ("evoid:code", "123") ∷ []) (cache, ("evoid:code", "123") ∷ []) true
      (some (number 123)) set_code got_number
