-- ===== src/Di/Engine/Routing.antt =====
-- packages/evoid-di/evoid_di/engine.py: context-aware resolution.
pub mod Routed
use Prim.Native.String.{◌++◌ as concat}
use evoid_plugins.Prelude.{
  String, Bool, true, false, ◌&&◌, Option, none, some, List, [], ◌∷◌, string_eq, ◌==◌,
  if◌then◌else◌,
}
use evoid_plugins.Py.Dict.{Dict, get, get_or, has_key, put}
use evoid_plugins.Py.Exec.{
  value_error, type_error, Result, ok, err, Exec, pure, raise, lift, ◌>>=◌, ◌>>◌,
}
use evoid_plugins.Py.Value.{Value, atom, table, value_truthy}
use evoid_plugins.Evoid.{Levels, Context}
use evoid_plugins.Di.Rules
use evoid_plugins.Di.Rules.{Flat, RuleSet, extract_context, value_at}
use evoid_plugins.Di.Engine.Key.{UserKey, routed}
use evoid_plugins.Di.Engine.{
  Factory, absent, object, callable, Engine, Method, create, cached_user, cached_singleton, resolve,
}

-- `(name, impl_name, user_id)` as a key: a dictionary cannot be hashed.
pub routed_key : String → String → Value → Result UserKey
routed_key name impl_name (atom user_id) = ok (routed name impl_name user_id)
routed_key name impl_name (table t) = err type_error

-- `f"{name}:{impl_name}"`
unfoldable pub cache_key : String → String → String
cache_key name impl_name = concat name (concat ":" impl_name)

-- `truthy` is `bool` of an instance that stands in the registry of implementations.
module _ {W I : Type 0} (levels : Levels) (truthy : I → Bool) where
  -- `if not factory: raise ValueError`, else the instance
  unfoldable pub make_impl : Factory W I → Method W I (Option I)
  make_impl absent = raise value_error
  make_impl (object i) = if truthy i then create (object i) else raise value_error
  make_impl (callable make) = create (callable make)

  unfoldable pub create_impl : String → Method W I (Option I)
  create_impl impl_name (e, w) = make_impl (get_or e.impl_registry impl_name absent) (e, w)

  -- the scoped cache of `resolve_async`
  unfoldable pub resolve_impl : String → String → String → Value → Method W I (Option I)
  unfolding routed_key
  resolve_impl name impl_name scope user_id =
      let per_user : Method W I (Option I) = (do
        key ← lift (routed_key name impl_name user_id)
        cached_user key (create_impl impl_name)) in
      if scope == "per_user" && value_truthy user_id
      then per_user
      else if scope == "transient"
      then create_impl impl_name
      else cached_singleton (cache_key name impl_name) (create_impl impl_name)

  -- `if not impl_name: raise ValueError`, else the scoped cache
  unfoldable pub resolve_chosen : String → Flat → Option String → Method W I (Option I)
  resolve_chosen name context none s = raise value_error s
  resolve_chosen name context (some impl_name) (e, w) =
      let scope = get_or (get_or e.services_config name []) "scope" "singleton" in
      let found = resolve_impl name impl_name scope (value_at context "user_id") (e, w) in
      if impl_name == "" then (err value_error, (e, w)) else found

  unfoldable pub resolve_routed : String → Context → Flat → Option RuleSet → Method W I (Option I)
  resolve_routed name ctx extra none = resolve name none
  resolve_routed name ctx extra (some rule_set) = do
    impl_name ← lift (Rules.resolve levels rule_set (extract_context ctx extra))
    resolve_chosen name (extract_context ctx extra) impl_name

  unfoldable pub resolve_async : String → Context → Flat → Method W I (Option I)
  resolve_async name ctx extra (e, w) = resolve_routed name ctx extra (get e.rule_sets name) (e, w)

  -- `ctx.deps[key] = instance`; the new `deps` are returned
  unfoldable pub inject :
      Context
      → Dict String (Option I)
      → String
      → Option String
      → Method W I (Dict String (Option I))
  inject ctx deps service_name key (e, w) =
      let found : Method W I (Option I) =
        if has_key e.rule_sets service_name
        then resolve_async service_name ctx []
        else resolve service_name none in
      let label : String = elim key [ none ↦ service_name | some k ↦ k ] in
      (do found' ← found; pure (put deps label found')) (e, w)
