-- ===== src/Storage/Engine.antt =====
-- packages/evoid-smart-storage/evoid_smart_storage/engine.py: the class `SmartStorage`.
-- `W` is the state of the world, the backends and the dependency injection engine in it; `B` is the
-- type of backends, `V` that of values and `R` what a read answers.
pub mod Routing
use evoid_plugins.Prelude.{
  ◌≡◌, String, Bool, true, false, not, ◌&&◌, Option, none, some, List, [], ◌∷◌, ◌++◌, map,
  string_eq, ◌==◌, if◌then◌else◌, contains,
}
use evoid_plugins.Py.Dict.{Dict, get, get_or, has_key, put, values}
use evoid_plugins.Py.Exec.{
  value_error, attribute_error, Result, ok, err, Exec, pure, raise, ◌>>=◌, ◌>>◌,
}
use evoid_plugins.Py.Text.{has_char, split}
use evoid_plugins.Storage.Schema.{Schemas, apply}

-- The calls that leave the engine. `di.resolve` answers `None` (`none`) where a factory made none;
-- `health` is `none` for a backend that has no such method. `set_of` lists the elements of the set
-- made of a list, in the order in which Python goes through it.
pub record Backends (W B V R : Type 0) : Type 0 where
  pub di_resolve : String → W → Result (Option B) × W
  pub write_to : B → String → Dict String V → W → Result (Unit {0}) × W
  pub read_from : B → String → Dict String V → W → Result R × W
  pub delete_from : B → String → Dict String V → W → Result (Unit {0}) × W
  pub health_of : B → Option (W → Result Bool × W)
  pub set_of : List String → List String
  pub set_of-contains : (l : List String) (s : String) → contains (set_of l) s ≡ contains l s

-- What stands under a name in `_engines`: one backend, or the list of a multi-write.
pub data Target (B : Type 0) : Type 0 where
  one : Option B → Target B
  many : List (Option B) → Target B

pub record SmartStorage (B : Type 0) : Type 0 where
  pub mapping : Dict String String
  pub schemas : Schemas
  pub user_connections : Dict String String
  pub level_routing : Dict String String
  pub engines : Dict String (Target B)
  pub setup_complete : Bool

-- The parts of an intent that routing reads: `metadata["storage_preference"]` and the level's value.
pub record StorageIntent : Type 0 where
  pub storage_preference : Option String
  pub level : String

abbrev pub first_of_two : Option String → Option String → Option String
first_of_two none other = other
first_of_two (some s) other = some s

-- a text that is there and not empty
abbrev pub truthy_text : Option String → Option String
truthy_text none = none
truthy_text (some s) = if s == "" then none else some s

abbrev preference : Option StorageIntent → Option String
preference none = none
preference (some intent) = truthy_text intent.storage_preference

module _ {B : Type 0} where
  abbrev by_user : SmartStorage B → Option String → Option String
  by_user s user_id = elim (truthy_text user_id) [ none ↦ none | some u ↦ get s.user_connections u ]

  abbrev by_level : SmartStorage B → Option StorageIntent → Option String
  by_level s none = none
  by_level s (some intent) = get s.level_routing intent.level

  -- `_resolve_engine`
  unfoldable pub resolve_engine :
      SmartStorage B → String → Option StorageIntent → Option String → Option String
  resolve_engine s data_type intent user_id = first_of_two (preference intent) (
      first_of_two (by_user s user_id) (first_of_two (by_level s intent) (get s.mapping data_type)))

abbrev pub Method : (W B A : Type 0) → Type 0
Method W B A = Exec (SmartStorage B × W) A

-- `self._engines.get(engine_name, [])` as a list of backends
abbrev pub targets_of : {B : Type 0} → Option (Target B) → List (Option B)
targets_of none = []
targets_of (some (one b)) = b ∷ []
targets_of (some (many bs)) = bs

module _ {W B V R : Type 0} (backends : Backends W B V R) where
  open backends use {di_resolve, write_to, read_from, delete_from, health_of, set_of}

  -- `[di.resolve(p) for p in parts]`
  unfoldable pub resolve_parts : List String → Method W B (List (Option B))
  resolve_parts [] = pure []
  resolve_parts (p ∷ ps) = do
    b ← λ (s, w). let (r, w') = di_resolve p w in (r, (s, w'))
    bs ← resolve_parts ps
    pure (b ∷ bs)

  unfoldable pub store_engine : String → Target B → Method W B (Unit {0})
  store_engine name target (s, w) = (ok tt, (record s { engines = put s.engines name target }, w))

  -- one round of the loop of `setup`
  unfoldable pub setup_engine : String → Method W B (Unit {0})
  setup_engine name =
      let several : Method W B (Unit {0}) = (do
        bs ← resolve_parts (split b'+' name)
        store_engine name (many bs)) in
      let single : Method W B (Unit {0}) = (do
        b ← λ (s, w). let (r, w') = di_resolve name w in (r, (s, w'))
        store_engine name (one b)) in
      if has_char b'+' name then several else single

  unfoldable pub setup_engines : List String → Method W B (Unit {0})
  setup_engines [] = pure tt
  setup_engines (name ∷ rest) = do setup_engine name; setup_engines rest

  -- `set(self.mapping.values())` and the targets of `user_connections`
  abbrev pub engine_names : SmartStorage B → List String
  engine_names s = set_of (values s.mapping ++ values s.user_connections)

  unfoldable pub complete : Method W B (Unit {0})
  complete (s, w) = (ok tt, (record s { setup_complete = true }, w))

  unfoldable pub setup : Method W B (Unit {0})
  setup (s, w) =
      let run : Method W B (Unit {0}) = (do setup_engines (engine_names s); complete) in
      if s.setup_complete then (ok tt, (s, w)) else run (s, w)

  -- `for eng in targets: await eng.write(…)`; `None` has no such method
  unfoldable pub write_each : List (Option B) → String → Dict String V → Method W B (Unit {0})
  write_each [] data_type data' = pure tt
  write_each (none ∷ rest) data_type data' = raise attribute_error
  write_each (some b ∷ rest) data_type data' = do
    λ (s, w). let (r, w') = write_to b data_type data' w in (r, (s, w'))
    write_each rest data_type data'

  unfoldable pub delete_each : List (Option B) → String → Dict String V → Method W B (Unit {0})
  delete_each [] data_type query = pure tt
  delete_each (none ∷ rest) data_type query = raise attribute_error
  delete_each (some b ∷ rest) data_type query = do
    λ (s, w). let (r, w') = delete_from b data_type query w in (r, (s, w'))
    delete_each rest data_type query

  -- the part of `write` below the choice of the engine
  unfoldable pub write_to_engine : Option String → String → Dict String V → Method W B Bool
  write_to_engine none data_type data' = raise value_error
  write_to_engine (some name) data_type data' = λ (s, w).
      (do
        write_each (targets_of (get s.engines name)) data_type (apply s.schemas data_type data')
        pure true)
        (s, w)

  unfoldable pub write :
      String → Dict String V → Option StorageIntent → Option String → Method W B Bool
  write data_type data' intent user_id = do
    setup
    λ (s, w).
        write_to_engine (truthy_text (resolve_engine s data_type intent user_id)) data_type data'
          (s, w)

  -- `target[0]` of a list raises where the list is empty; `split` never makes an empty list
  abbrev pub primary : Option (Target B) → Option B
  primary none = none
  primary (some (one b)) = b
  primary (some (many [])) = none
  primary (some (many (b ∷ bs))) = b

  unfoldable pub read_target : Option B → String → Dict String V → Method W B (Option R)
  read_target none data_type query = pure none
  read_target (some b) data_type query = do
    r ← λ (s, w). let (r, w') = read_from b data_type query w in (r, (s, w'))
    pure (some r)

  unfoldable pub read_from_engine : Option String → String → Dict String V → Method W B (Option R)
  read_from_engine none data_type query = pure none
  read_from_engine (some name) data_type query =
      λ (s, w). read_target (primary (get s.engines name)) data_type query (s, w)

  unfoldable pub read :
      String → Dict String V → Option StorageIntent → Option String → Method W B (Option R)
  read data_type query intent user_id = do
    setup
    λ (s, w).
        read_from_engine (truthy_text (resolve_engine s data_type intent user_id)) data_type query
          (s, w)

  unfoldable pub delete_from_engine : Option String → String → Dict String V → Method W B Bool
  delete_from_engine none data_type query = pure false
  delete_from_engine (some name) data_type query =
      λ (s, w). (do delete_each (targets_of (get s.engines name)) data_type query; pure true) (s, w)

  unfoldable pub delete :
      String → Dict String V → Option StorageIntent → Option String → Method W B Bool
  delete data_type query intent user_id = do
    setup
    λ (s, w).
        delete_from_engine (truthy_text (resolve_engine s data_type intent user_id)) data_type query
          (s, w)

  -- `hasattr(eng, "health") and not await eng.health()`, negated
  abbrev pub check : Option B → Method W B Bool
  check none = pure true
  check (some b) = elim (health_of b) [
    | none ↦ pure true
    | some probe ↦ λ (s, w). let (r, w') = probe w in (r, (s, w'))
  ]

  unfoldable pub check_each : List (Option B) → Method W B Bool
  check_each [] = pure true
  check_each (b ∷ rest) = do
    healthy ← check b
    let others = check_each rest
    if healthy then others else pure false

  unfoldable pub check_targets : List (Target B) → Method W B Bool
  check_targets [] = pure true
  check_targets (t ∷ rest) = do
    healthy ← check_each (targets_of (some t))
    let others = check_targets rest
    if healthy then others else pure false

  unfoldable pub health : Method W B Bool
  health = do setup; λ (s, w). check_targets (values s.engines) (s, w)
