-- ===== src/Di/Engine.antt =====
-- packages/evoid-di/evoid_di/engine.py: the state of `DIEngine`, registration, and `resolve`.
-- `W` is the state of the world outside of the engine, which factories and health checks change; `I`
-- is the type of the instances, and `none` stands for Python's `None`. A factory that calls back
-- into the engine is not modelled.
pub mod Key
pub mod Routing
pub mod Fallback
pub mod Scopes
pub mod Cache
use evoid_plugins.Prelude.{
  ℕ, zero, suc, ◌-◌, ◌+◌, String, Bool, true, false, not, ◌&&◌, ◌||◌, Option, none, some, List, [],
  ◌∷◌, ◌++◌, string_eq, ◌==◌, if◌then◌else◌, length, contains, keep_if,
}
use evoid_plugins.Py.Dict.{Dict, get, get_or, has_key, put, keys}
use evoid_plugins.Py.Exec.{
  Error, value_error, key_error, runtime_error, Result, ok, err, Exec, pure, raise, ◌>>=◌, ◌>>◌,
}
use evoid_plugins.Cluster.Registry.{Registry}
use evoid_plugins.Di.Rules.{RuleSet, ConfigEntry, make_rule_set}
use Key.{UserKey, direct, routed, user_key_eq, is_of_user}

-- What is registered under a name: `None`, an instance, or a function that makes one and may raise.
pub data Factory (W I : Type 0) : Type 0 where
  absent : Factory W I
  object : I → Factory W I
  callable : (W → Result (Option I) × W) → Factory W I

pub record Engine (W I : Type 0) : Type 0 where
  pub factories : Dict String (Factory W I)
  pub scopes : Dict String String
  pub singletons : Dict String (Option I)
  pub per_user : Dict UserKey (Option I)
  pub max_per_user : ℕ
  pub impl_registry : Dict String (Factory W I)
  pub services_config : Dict String (Dict String String)
  pub rule_sets : Dict String RuleSet
  pub fallbacks : Dict String (List String)
  pub health_checks : Dict String (W → Result Bool × W)
  pub unhealthy : List String
  pub cluster_registry : Option Registry

-- `for name, rules in (rules_config or {}).items()`
unfoldable pub load_rule_sets :
    Dict String RuleSet → Dict String (List ConfigEntry) → Dict String RuleSet
load_rule_sets sets [] = sets
load_rule_sets sets ((name, rules) ∷ rest) =
    load_rule_sets (put sets name (make_rule_set rules)) rest

-- `DIEngine(rules_config, implementations, services_config, max_per_user)`
unfoldable pub init :
    {W I : Type 0}
    → Dict String (List ConfigEntry)
    → Dict String (Factory W I)
    → Dict String (Dict String String)
    → ℕ
    → Engine W I
init rules_config implementations services_config max_per_user = record {
  factories = [];
  scopes = [];
  singletons = [];
  per_user = [];
  max_per_user = max_per_user;
  impl_registry = implementations;
  services_config = services_config;
  rule_sets = load_rule_sets [] rules_config;
  fallbacks = [];
  health_checks = [];
  unhealthy = [];
  cluster_registry = none;
}

module _ {W I : Type 0} where
  unfoldable pub register : Engine W I → String → Factory W I → String → Engine W I
  register e name factory scope = record e {
    factories = put e.factories name factory;
    scopes = put e.scopes name scope;
  }

  unfoldable pub register_many : Engine W I → Dict String (Factory W I) → String → Engine W I
  register_many e [] scope = e
  register_many e ((name, factory) ∷ rest) scope =
      register_many (register e name factory scope) rest scope

  unfoldable pub has : Engine W I → String → Bool
  has e name = has_key e.factories name || has_key e.rule_sets name

  -- the union of two sets of names, as a list
  unfoldable pub list_services : Engine W I → List String
  list_services e =
      keys e.factories ++ keep_if (λ n. not (contains (keys e.factories) n)) (keys e.rule_sets)

  unfoldable pub clear : Engine W I → Engine W I
  clear e = record e { singletons = []; per_user = [] }

  unfoldable pub clear_user : Engine W I → String → Engine W I
  clear_user e user_id = record e {
    per_user = keep_if (λ entry. not (is_of_user user_id entry.0)) e.per_user;
  }

-- A method on the engine, in the world.
abbrev pub Method : (W I A : Type 0) → Type 0
Method W I A = Exec (Engine W I × W) A

module _ {W I : Type 0} where
  -- `_create`
  unfoldable pub create : Factory W I → Method W I (Option I)
  create absent s = (ok none, s)
  create (object i) s = (ok (some i), s)
  create (callable make) (e, w) = let (made, w') = make w in (made, (e, w'))

  -- `for _ in range(excess): del d[next(keys)]`: the iterator refuses to go on after a deletion.
  pub delete_oldest : ℕ → Method W I (Unit {0})
  delete_oldest zero s = (ok tt, s)
  delete_oldest (suc more) (e, w) = elim e.per_user [
    | [] ↦ (err runtime_error, (e, w))
    | oldest ∷ rest ↦
        let s' : Engine W I × W = (record e { per_user = rest }, w) in
        elim more [ zero ↦ (ok tt, s') | suc again ↦ (err runtime_error, s') ]
  ]

  -- `_evict_per_user_if_needed`
  unfoldable pub evict_per_user_if_needed : Method W I (Unit {0})
  unfolding delete_oldest
  evict_per_user_if_needed (e, w) = delete_oldest (length e.per_user - e.max_per_user) (e, w)

  -- `self._per_user[key]` and `self._singletons[key]`
  abbrev pub fetch_user : UserKey → Method W I (Option I)
  fetch_user key (e, w) = elim (get e.per_user key) [
    | none ↦ (err key_error, (e, w))
    | some v ↦ (ok v, (e, w))
  ]

  abbrev pub fetch_singleton : String → Method W I (Option I)
  fetch_singleton key (e, w) = elim (get e.singletons key) [
    | none ↦ (err key_error, (e, w))
    | some v ↦ (ok v, (e, w))
  ]

  abbrev pub store_user : UserKey → Option I → Method W I (Unit {0})
  store_user key v (e, w) = (ok tt, (record e { per_user = put e.per_user key v }, w))

  abbrev pub store_singleton : String → Option I → Method W I (Unit {0})
  store_singleton key v (e, w) = (ok tt, (record e { singletons = put e.singletons key v }, w))

  -- `if key not in self._per_user: …` and the value that is then there
  unfoldable pub cached_user : UserKey → Method W I (Option I) → Method W I (Option I)
  cached_user key make (e, w) =
      let fill : Method W I (Option I) = (do
        evict_per_user_if_needed
        v ← make
        store_user key v
        fetch_user key) in
      if has_key e.per_user key then fetch_user key (e, w) else fill (e, w)

  unfoldable pub cached_singleton : String → Method W I (Option I) → Method W I (Option I)
  cached_singleton key make (e, w) =
      let fill : Method W I (Option I) = (do
        v ← make
        store_singleton key v
        fetch_singleton key) in
      if has_key e.singletons key then fetch_singleton key (e, w) else fill (e, w)

  pub resolve_per_user : String → Option String → Factory W I → Method W I (Option I)
  resolve_per_user name none factory = raise value_error
  resolve_per_user name (some user_id) factory = cached_user (direct name user_id) (create factory)

  -- the part of `resolve` below the look-up of the factory
  unfoldable pub resolve_scoped :
      String → Option String → String → Factory W I → Method W I (Option I)
  unfolding resolve_per_user
  resolve_scoped name user_id scope absent = raise value_error
  resolve_scoped name user_id scope factory =
      if scope == "transient"
      then create factory
      else if scope == "per_user"
      then resolve_per_user name user_id factory
      else cached_singleton name (create factory)

  unfoldable pub resolve : String → Option String → Method W I (Option I)
  resolve name user_id (e, w) =
      if has_key e.rule_sets name
      then (err value_error, (e, w))
      else resolve_scoped name user_id (get_or e.scopes name "singleton")
          (get_or e.factories name absent) (e, w)

  unfoldable pub resolve_or_none : String → Option String → Method W I (Option I)
  resolve_or_none name user_id (e, w) =
      if has e name then resolve name user_id (e, w) else (ok none, (e, w))
