-- ===== src/Examples/Cluster.antt =====
-- Runs of packages/evoid-cluster/evoid_cluster/registry.py on a cluster of two nodes.
use evoid_plugins.Prelude.{
  ℕ, ◌<◌, ◌≡◌, inl, refl, String, true, false, some, none, List, [], ◌∷◌, string_eq, contains,
  keep_if,
}
use evoid_plugins.Py.Dict.{get, has_key, put}
use evoid_plugins.Cluster.Node.{ClusterNode, NodeStatus, is_online}
use evoid_plugins.Cluster.Registry.{
  Registry, empty, register_node, mark_node_offline, is_healthy, candidates, resolve,
  resolve_load_balanced, healthy_ids, find_healthy, wildcard, before_colon, add_services,
  add_service, open_service, set_status,
}
use evoid_plugins.Cluster.Registry.Consistency.{
  IsConsistent, Reach, here, next, join, fail, serves, empty-IsConsistent, Reach-IsConsistent,
}
use evoid_plugins.Cluster.Registry.Resolve.{Offers, resolve_sound, resolve_complete}
use evoid_plugins.Cluster.Registry.Balance.{after, resolve_load_balanced_fair}

abbrev node : String → List String → ClusterNode
node id services = record {
  node_id = id;
  name = id;
  host = "localhost";
  port = 7000;
  roles = "worker" ∷ [];
  services = services;
  status = NodeStatus.online;
  last_heartbeat = 0;
}

abbrev one_node : Registry
one_node = register_node empty (node "a" ("mail" ∷ []))

abbrev two_nodes : Registry
two_nodes = register_node one_node (node "b" ("mail" ∷ "chat" ∷ []))

fresh_a : get empty.nodes "a" ≡ none
unfolding get
fresh_a = refl

fresh_b : get one_node.nodes "b" ≡ none
unfolding get register_node put
fresh_b = refl

joined : Reach empty two_nodes
joined =
    next (next here (join empty (node "a" ("mail" ∷ [])) fresh_a))
      (join one_node (node "b" ("mail" ∷ "chat" ∷ [])) fresh_b)

Reach-IsConsistent_example : IsConsistent (mark_node_offline two_nodes "a")
Reach-IsConsistent_example =
    Reach-IsConsistent empty-IsConsistent (next joined (fail two_nodes "a"))

two_nodes-IsConsistent : IsConsistent two_nodes
two_nodes-IsConsistent = Reach-IsConsistent empty-IsConsistent joined

resolved : resolve two_nodes "mail" ≡ some (node "a" ("mail" ∷ []))
unfolding resolve find_healthy is_healthy get register_node put add_services add_service
    open_service has_key contains
resolved = refl

resolve_sound_example :
    (is_online NodeStatus.online ≡ true)
    × (get two_nodes.nodes "a" ≡ some (node "a" ("mail" ∷ [])))
    × Offers two_nodes "mail" "a"
resolve_sound_example =
    resolve_sound two_nodes "mail" (node "a" ("mail" ∷ [])) two_nodes-IsConsistent resolved

abbrev one_offline : Registry
one_offline = mark_node_offline one_node "a"

one_offline-IsConsistent : IsConsistent one_offline
one_offline-IsConsistent =
    Reach-IsConsistent empty-IsConsistent
      (next (next here (join empty (node "a" ("mail" ∷ [])) fresh_a)) (fail one_node "a"))

unresolved : resolve one_offline "mail" ≡ none
unfolding resolve find_healthy is_healthy get register_node put add_services add_service
    open_service has_key contains mark_node_offline set_status wildcard before_colon
unresolved = refl

offered : serves one_offline "mail" "a" ≡ true
unfolding get register_node put contains mark_node_offline set_status
offered = refl

resolve_complete_example : is_healthy one_offline "a" ≡ false
resolve_complete_example =
    resolve_complete one_offline "mail" "a" one_offline-IsConsistent unresolved (inl offered)

failed_over :
    resolve (mark_node_offline two_nodes "a") "mail" ≡ some (node "b" ("mail" ∷ "chat" ∷ []))
unfolding resolve find_healthy is_healthy get register_node put add_services add_service
    open_service has_key contains mark_node_offline set_status
failed_over = refl

both_healthy : healthy_ids two_nodes "mail" ≡ "a" ∷ "b" ∷ []
unfolding candidates is_healthy get register_node put add_services add_service open_service has_key
    contains keep_if
both_healthy = refl

resolve_load_balanced_fair_example :
    (j : ℕ) × (j < 2)
    × ((resolve_load_balanced (after two_nodes "mail" j) "mail").0 ≡ get two_nodes.nodes "b")
resolve_load_balanced_fair_example =
    resolve_load_balanced_fair two_nodes "mail" "a" ("b" ∷ []) both_healthy 1 "b" refl
