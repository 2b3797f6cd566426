-- ===== src/Examples/Storage.antt =====
-- Runs of packages/evoid-smart-storage/evoid_smart_storage on backends that count their calls.
use evoid_plugins.Prelude.{
  ℕ, suc, ◌≡◌, refl, String, true, false, ◌||◌, some, none, Option, [], ◌∷◌, string_eq, contains,
}
use evoid_plugins.Py.Dict.{has_key, put, values}
use evoid_plugins.Py.Exec.{ok}
use evoid_plugins.Py.Text.{has_char, split}
use evoid_plugins.Storage.Engine.{
  Backends, one, many, SmartStorage, StorageIntent, setup, setup_engines, setup_engine,
  resolve_parts, store_engine, complete,
}
use evoid_plugins.Storage.Engine.Routing.{setup_covers}

-- The world counts the calls, and a backend is its name.
abbrev counting : Backends ℕ String ℕ ℕ
counting = record {
  di_resolve = λ name w. (ok (some name), suc w);
  write_to = λ b data_type data' w. (ok tt, suc w);
  read_from = λ b data_type query w. (ok w, suc w);
  delete_from = λ b data_type query w. (ok tt, suc w);
  health_of = λ b. none;
  set_of = λ l. l;
  set_of-contains = λ l s. refl;
}

abbrev store : SmartStorage String
store = record {
  mapping = ("User", "sqlite") ∷ ("Log", "file+redis") ∷ [];
  schemas = ("User", "name" ∷ "email" ∷ []) ∷ [];
  user_connections = [];
  level_routing = ("critical", "postgres") ∷ [];
  engines = [];
  setup_complete = false;
}

abbrev ready : SmartStorage String
ready = record store {
  engines =
      ("sqlite", one (some "sqlite")) ∷ ("file+redis", many (some "file" ∷ some "redis" ∷ [])) ∷ [];
  setup_complete = true;
}

set_up : setup counting (store, 0) ≡ (ok tt, (ready, 3))
unfolding setup setup_engines setup_engine resolve_parts store_engine complete put has_char split
set_up = refl

setup_covers_example :
    (has_key ready.engines "postgres" ≡ (
      contains (values store.mapping) "postgres"
      || contains (values store.user_connections) "postgres"))
    × (ready ≡ record store { engines = ready.engines; setup_complete = true })
    × (setup counting (ready, 3) ≡ (ok tt, (ready, 3)))
setup_covers_example = setup_covers counting store ready 0 3 "postgres" refl refl set_up

abbrev critical : Option StorageIntent
critical = some (record { storage_preference = none; level = "critical" })
