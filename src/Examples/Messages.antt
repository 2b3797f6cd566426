-- ===== src/Examples/Messages.antt =====
-- Runs of packages/evoid-cluster/evoid_cluster: the health checker, the router and the protocol.
use evoid_plugins.Prelude.{
  all_of, ℕ, suc, ◌≡◌, refl, String, true, not, ◌&&◌, some, none, [], ◌∷◌, string_eq, nat_eq, ◌==◌,
  if◌then◌else◌, contains,
}
use evoid_plugins.Py.Dict.{get, has_key, put, unique_keys}
use evoid_plugins.Py.Exec.{runtime_error, Result, ok, err}
use evoid_plugins.Cluster.Node.{ClusterNode, NodeStatus}
use evoid_plugins.Cluster.Registry.{Registry, empty, register_node, is_healthy, mark_node_offline}
use evoid_plugins.Cluster.Registry.Consistency.{
  IsConsistent, Reach-IsConsistent, empty-IsConsistent, here, next, join,
}
use evoid_plugins.Cluster.Health.{Monitor, check_dead}
use evoid_plugins.Cluster.Health.Liveness.{overdue, check_dead_lem}
use evoid_plugins.Cluster.Router.{result, Wiring, IntentRouter}
use evoid_plugins.Cluster.Protocol.{
  str, null, number, to_wire, ◌>>=◌, MessageType, Wire, ClusterMessage, Codec, encode, decode,
}
use evoid_plugins.Cluster.Protocol.RoundTrip.{decode-encode}

abbrev pub node : String → ClusterNode
node id = record {
  node_id = id;
  name = id;
  host = "localhost";
  port = 7000;
  roles = [];
  services = "mail" ∷ [];
  status = NodeStatus.online;
  last_heartbeat = 0;
}

abbrev pub registry : Registry
registry = register_node (register_node empty (node "a")) (node "b")

fresh_a : get empty.nodes "a" ≡ none
unfolding get
fresh_a = refl

fresh_b : get (register_node empty (node "a")).nodes "b" ≡ none
unfolding get register_node put
fresh_b = refl

pub registry-IsConsistent : IsConsistent registry
registry-IsConsistent = Reach-IsConsistent empty-IsConsistent (
    next (next here (join empty (node "a") fresh_a))
      (join (register_node empty (node "a")) (node "b") fresh_b))

abbrev pub monitor : Monitor
monitor = record {
  registry = registry;
  nodes_ws = "a" ∷ "b" ∷ [];
  last_seen = ("a", 100) ∷ ("b", 120) ∷ [];
  timeout = 15;
}

seen_once : unique_keys monitor.last_seen ≡ true
unfolding unique_keys has_key
seen_once = refl

check_dead_lem_example :
    (is_healthy (check_dead 125 monitor).registry "a"
      ≡ (is_healthy registry "a" && not (overdue 15 125 (get monitor.last_seen "a"))))
    × (contains (check_dead 125 monitor).nodes_ws "a" ≡ (
        contains monitor.nodes_ws "a"
        && not (overdue 15 125 (get monitor.last_seen "a") && is_healthy registry "a")))
check_dead_lem_example = check_dead_lem monitor 125 "a" seen_once

-- Node `a` cannot be reached, and `b` answers every call with 7. The world counts the calls.
abbrev pub wiring : Wiring ℕ String ℕ
wiring = record {
  name_of = λ intent. intent;
  timeout_of = λ intent. 10;
  outcome = λ v. (true, v);
  execute = λ intent w. (ok 1, w);
  new_id = λ w. ("msg", suc w);
  send = λ id message w. (if id == "a" then err runtime_error else ok tt, w);
  arrival = λ id timeout w. (some (result true 7), w);
}

abbrev router : IntentRouter
router = record { registry = registry; local_node_id = "c"; pending = [] }

abbrev after_failover : IntentRouter
after_failover = record {
  registry = mark_node_offline registry "a";
  local_node_id = "c";
  pending = [];
}

abbrev answered : Result ℕ
answered = ok 7

-- data that stays as it is
abbrev plain : Codec Wire
plain = record {
  packb = λ d. ok d;
  unpackb = λ d. ok d;
  unpackb-packb = λ d small. (d, refl, refl);
}

abbrev announcement : ClusterMessage
announcement = record {
  type = MessageType.announce;
  source_node = str "a";
  target_node = null;
  message_id = str "msg";
  timestamp = number 100;
  payload = 1 ∷ 2 ∷ [];
}

decode-encode_example : (encode plain announcement >>= decode plain) ≡ ok announcement
unfolding all_of to_wire
decode-encode_example = decode-encode plain announcement refl refl
