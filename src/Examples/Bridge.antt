-- ===== src/Examples/Bridge.antt =====
-- Runs of packages/evoid-cluster/evoid_cluster/bridge.py.
use evoid_plugins.Prelude.{
  false, none, ℕ, suc, ◌≡◌, refl, String, true, some, none, [], ◌∷◌, string_eq, contains,
}
use evoid_plugins.Py.Dict.{get, has_key, put}
use evoid_plugins.Py.Exec.{ok}
use evoid_plugins.Cluster.Registry.{register_node}
use evoid_plugins.Cluster.Registry.Consistency.{IsConsistent, serves}
use evoid_plugins.Cluster.Registry.{
  resolve, find_healthy, add_services, add_service, open_service, wildcard,
}
use evoid_plugins.Cluster.Bridge.{
  service, register_local, withdraw, ClusterBridge, announce, Received, Sockets, handle_message,
  listen_message, lose_peer,
}
use evoid_plugins.Cluster.Bridge.Steps.{
  Steps, start, then_step, received, lost, Steps-IsConsistent, announce_lem,
}
use evoid_plugins.Examples.Messages.{registry, registry-IsConsistent, monitor, wiring}

-- sockets that never fail
abbrev sockets : Sockets ℕ
sockets = record {
  clock = λ w. w;
  pong = λ id w. (ok tt, suc w);
  close = λ id w. (ok tt, suc w);
  connect = λ id host port w. (ok tt, suc w);
}

abbrev bridge : ClusterBridge
bridge = record {
  shares_services = false;
  config = record {
    node_id = "c";
    name = "c";
    host = "localhost";
    port = 9100;
    roles = [];
    services = [];
    peers = [];
  };
  monitor = monitor;
  pending = [];
}

abbrev announcement : Received String ℕ
announcement = record {
  source_node = "a";
  target_node = none;
  message_id = "msg";
  kind = announce (some ("chat" ∷ []));
}

abbrev announced : ClusterBridge
announced = (handle_message sockets wiring announcement (bridge, 0)).1.0

met : Steps sockets wiring bridge (lose_peer announced "b")
met = then_step (then_step start (received announcement 0)) (lost "b")

Steps-IsConsistent_example : IsConsistent (lose_peer announced "b").monitor.registry
Steps-IsConsistent_example = Steps-IsConsistent sockets wiring bridge registry-IsConsistent met

known : has_key registry.nodes "a" ≡ true
unfolding has_key register_node put
known = refl

announce_lem_example :
    ((listen_message sockets wiring announcement (bridge, 0)).1.0 ≡ bridge)
    × ((listen_message sockets wiring (record announcement { kind = withdraw }) (bridge, 0)).1.0
        ≡ bridge)
    × (serves announced.monitor.registry "chat" "a" ≡ contains {A = String} ("chat" ∷ []) "chat")
announce_lem_example =
    announce_lem sockets wiring announcement ("chat" ∷ []) bridge 0 "chat" refl known

-- A service that is listed after the start is offered by the registered node, and is not resolved.
service_missed :
    (serves (service (register_local bridge) "video").monitor.registry "video" "c" ≡ true)
    × (resolve (service (register_local bridge) "video").monitor.registry "video" ≡ none)
unfolding service register_local contains register_node get put resolve find_healthy add_services
    has_key add_service open_service wildcard
service_missed = (refl, refl)
