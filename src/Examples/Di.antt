-- ===== src/Examples/Di.antt =====
-- Runs of packages/evoid-di/evoid_di on a small engine. The world counts the calls of factories.
use evoid_plugins.Prelude.{
  String, Option, List, ◌++◌, ◌⊎◌, ℕ, ◌≡◌, refl, false, some, none, [], ◌∷◌, string_eq, ◌==◌,
  contains, suc,
}
use evoid_plugins.Py.Dict.{get, get_or, has_key, put}
use evoid_plugins.Py.Exec.{ok, err, runtime_error}
use evoid_plugins.Cluster.Node.{ClusterNode, NodeStatus}
use evoid_plugins.Cluster.Registry
use evoid_plugins.Cluster.Registry.{
  Registry, empty, register_node, find_healthy, add_services, add_service, open_service,
}
use evoid_plugins.Di.Engine.Key.{user_key_eq}
use evoid_plugins.Di.Engine.{
  Factory, callable, Engine, init, register, resolve, create, has, resolve_scoped, cached_singleton,
  load_rule_sets,
}
use evoid_plugins.Di.Engine.Scopes.{resolve_again}
use evoid_plugins.Di.Engine.Fallback.{
  resolve_with_fallback, attempt, attempt_each, set_fallback, set_cluster_registry, remote,
  ask_cluster, Answer, local_answer,
}
use evoid_plugins.Di.Engine.Fallback.Services.{
  AllPass, Serves, cluster_answer, resolve_with_fallback_lem,
}

-- an instance that is the number of the call that made it
abbrev counting : Factory ℕ ℕ
counting = callable (λ w. (ok (some w), suc w))

-- a factory that raises
abbrev failing : Factory ℕ ℕ
failing = callable (λ w. (err runtime_error, suc w))

abbrev blank : Engine ℕ ℕ
blank = init [] (("redis", counting) ∷ []) [] 2

abbrev one_service : Engine ℕ ℕ
one_service = register blank "db" counting "singleton"

abbrev per_user : Engine ℕ ℕ
per_user = register blank "cart" counting "per_user"

not_transient : (get_or one_service.scopes "db" "singleton" == "transient") ≡ false
unfolding get put register init
not_transient = refl

first_resolve :
    resolve "db" none (one_service, 5)
    ≡ (ok (some 5), (record one_service { singletons = ("db", some 5) ∷ [] }, 6))
unfolding get put register init resolve has_key resolve_scoped cached_singleton create
    load_rule_sets
first_resolve = refl

resolve_again_example :
    resolve "db" none (record one_service { singletons = ("db", some 5) ∷ [] }, 6)
    ≡ (ok (some 5), (record one_service { singletons = ("db", some 5) ∷ [] }, 6))
resolve_again_example =
    resolve_again "db" none one_service 5 (some 5)
      (record one_service { singletons = ("db", some 5) ∷ [] }, 6) not_transient first_resolve

abbrev with_fallback : Engine ℕ ℕ
with_fallback = set_fallback (register one_service "cache" failing "singleton") "cache" ("db" ∷ [])

resolve_with_fallback_lem_example :
    (passed : List String) × (untried : List String) × (s1 : Engine ℕ ℕ × ℕ) × (answer : Answer ℕ)
    × (s' : Engine ℕ ℕ × ℕ) × (resolve_with_fallback "cache" none (with_fallback, 0)
        ≡ (ok answer, s'))
    × ("cache" ∷ get_or with_fallback.fallbacks "cache" [] ≡ passed ++ untried)
    × AllPass none passed (with_fallback, 0) s1
    × ((untried ≡ []) × (s' ≡ s1) × (answer ≡ cluster_answer with_fallback.cluster_registry "cache")
        ⊎ ((found : String) × (rest : List String) × (v : Option ℕ) × (untried ≡ found ∷ rest)
            × Serves found none v s1 s'
            × (answer ≡ local_answer v)))
resolve_with_fallback_lem_example = resolve_with_fallback_lem "cache" none with_fallback 0

abbrev mail_node : ClusterNode
mail_node = record {
  node_id = "a";
  name = "a";
  host = "localhost";
  port = 7000;
  roles = [];
  services = "mail" ∷ [];
  status = NodeStatus.online;
  last_heartbeat = 0;
}

abbrev registry : Registry
registry = register_node empty mail_node

fresh : get empty.nodes "a" ≡ none
unfolding get
fresh = refl

abbrev clustered : Engine ℕ ℕ
clustered = set_cluster_registry one_service registry

answered :
    resolve_with_fallback "mail" none (clustered, 0) ≡ (ok (remote mail_node), (clustered, 0))
unfolding resolve_with_fallback attempt attempt_each has has_key set_cluster_registry register init
    load_rule_sets get put ask_cluster register_node Registry.resolve find_healthy
    Registry.is_healthy add_services add_service open_service contains
answered = refl
