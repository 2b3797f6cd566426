-- ===== src/Di/Engine/Fallback.antt =====
-- packages/evoid-di/evoid_di/engine.py: health, the fallback chain and the cluster.
pub mod Settled
pub mod Chain
pub mod Health
pub mod Services
use evoid_plugins.Prelude.{
  String, Bool, true, false, not, ◌&&◌, Option, none, some, List, [], ◌∷◌, string_eq, ◌==◌,
  if◌then◌else◌, contains, keep_if,
}
use evoid_plugins.Py.Dict.{Dict, get, get_or, put}
use evoid_plugins.Py.Exec.{Result, ok, err, Exec, pure, try_except, ◌>>=◌, ◌>>◌}
use evoid_plugins.Cluster.Node.{ClusterNode}
use evoid_plugins.Cluster.Registry
use evoid_plugins.Cluster.Registry.{Registry, ServiceMap}
use evoid_plugins.Di.Engine.{Engine, Method, has, resolve}

module _ {W I : Type 0} where
  unfoldable pub set_fallback : Engine W I → String → List String → Engine W I
  set_fallback e name fallbacks = record e { fallbacks = put e.fallbacks name fallbacks }

  unfoldable pub set_health_check : Engine W I → String → (W → Result Bool × W) → Engine W I
  set_health_check e name check_fn = record e { health_checks = put e.health_checks name check_fn }

  unfoldable pub set_cluster_registry : Engine W I → Registry → Engine W I
  set_cluster_registry e registry = record e { cluster_registry = some registry }

  -- `self._unhealthy.add(name)`
  unfoldable pub mark_unhealthy : Engine W I → String → Engine W I
  mark_unhealthy e name =
      if contains e.unhealthy name then e else record e { unhealthy = name ∷ e.unhealthy }

  -- `self._unhealthy.discard(name)`
  unfoldable pub mark_healthy : Engine W I → String → Engine W I
  mark_healthy e name = record e { unhealthy = keep_if (λ n. not (n == name)) e.unhealthy }

  -- a health check that raises counts as failed
  abbrev pub run_check : Option (W → Result Bool × W) → Method W I Bool
  run_check none = pure true
  run_check (some check) =
      try_except (λ (e, w). let (answer, w') = check w in (answer, (e, w'))) (pure false)

  unfoldable pub is_healthy : String → Method W I Bool
  is_healthy name (e, w) =
      if contains e.unhealthy name
      then (ok false, (e, w))
      else run_check (get e.health_checks name) (e, w)

-- What `resolve_with_fallback` returns: `None`, an instance, or a node of the cluster.
pub data Answer (I : Type 0) : Type 0 where
  null : Answer I
  instance_of : I → Answer I
  remote : ClusterNode → Answer I

abbrev pub local_answer : {I : Type 0} → Option I → Answer I
local_answer none = null
local_answer (some i) = instance_of i

abbrev pub node_answer : {I : Type 0} → Option ClusterNode → Answer I
node_answer none = null
node_answer (some node) = remote node

module _ {W I : Type 0} where
  -- the handler `self.mark_unhealthy(name)`; `none` goes on with the next service
  abbrev pub give_up : String → Method W I (Option (Option I))
  give_up name (e, w) = (ok none, (mark_unhealthy e name, w))

  -- `try: return self.resolve(…)` with its handler
  unfoldable pub try_resolve : String → Option String → Method W I (Option (Option I))
  try_resolve name user_id = try_except (do v ← resolve name user_id; pure (some v)) (give_up name)

  -- `if self.has(name) and self.is_healthy(name):` with the `try` block in it
  unfoldable pub attempt : String → Option String → Method W I (Option (Option I))
  attempt name user_id (e, w) =
      let checked : Method W I (Option (Option I)) = (do
        healthy ← is_healthy name
        if healthy then try_resolve name user_id else pure none) in
      if has e name then checked (e, w) else (ok none, (e, w))

  -- what has an instance ends the chain, and `none` goes on
  abbrev pub or_else :
      Method W I (Option (Option I)) → Option (Option I) → Method W I (Option (Option I))
  or_else others (some v) = pure (some v)
  or_else others none = others

  -- the loop over the fallback names; `none` where all of them fail
  unfoldable pub attempt_each : List String → Option String → Method W I (Option (Option I))
  attempt_each [] user_id = pure none
  attempt_each (name ∷ rest) user_id =
      let others = attempt_each rest user_id in attempt name user_id >>= or_else others

  -- `self._cluster_registry.resolve(name)`, if there is a registry
  unfoldable pub ask_cluster : Engine W I → String → Option ClusterNode
  ask_cluster e name = elim e.cluster_registry [
    | none ↦ none
    | some registry ↦ Registry.resolve registry name
  ]

  -- `for fallback_name in self._fallbacks.get(name, [])`
  abbrev pub attempt_fallbacks : String → Option String → Method W I (Option (Option I))
  attempt_fallbacks name user_id (e, w) = attempt_each (get_or e.fallbacks name []) user_id (e, w)

  -- the answer of the chain, or else the cluster's
  abbrev pub or_cluster : String → Option (Option I) → Method W I (Answer I)
  or_cluster name (some v) (e, w) = (ok (local_answer v), (e, w))
  or_cluster name none (e, w) = (ok (node_answer (ask_cluster e name)), (e, w))

  unfoldable pub resolve_with_fallback : String → Option String → Method W I (Answer I)
  resolve_with_fallback name user_id = do
    primary ← attempt name user_id
    found ← or_else (attempt_fallbacks name user_id) primary
    or_cluster name found

  -- `if result is not None: return result`
  abbrev pub or_next : Method W I (Answer I) → Answer I → Method W I (Answer I)
  or_next others null = others
  or_next others (instance_of i) = pure (instance_of i)
  or_next others (remote node) = pure (remote node)

  -- the loop of `resolve_any`: the first answer that is not `None`
  unfoldable pub resolve_any : List String → Option String → Method W I (Answer I)
  resolve_any [] user_id = pure null
  resolve_any (name ∷ rest) user_id =
      let others = resolve_any rest user_id in resolve_with_fallback name user_id >>= or_next others

  unfoldable pub resolve_remote : Engine W I → String → String → Option ClusterNode
  resolve_remote e service_name local_node_id = elim (ask_cluster e service_name) [
    | none ↦ none
    | some node ↦ if node.node_id == local_node_id then none else some node
  ]

  unfoldable pub get_cluster_services : Engine W I → ServiceMap
  get_cluster_services e = elim e.cluster_registry [
    | none ↦ []
    | some registry ↦ registry.service_map
  ]
