-- ===== src/Cluster/Health.antt =====
-- packages/evoid-cluster/evoid_cluster/health.py: the class `HealthChecker`, on the part of the bridge
-- that it changes. Times are clock readings in ticks.
pub mod Liveness
use evoid_plugins.Prelude.{
  ℕ, ◌-◌, String, Bool, true, false, not, Option, none, some, List, [], ◌∷◌, string_eq, ◌==◌,
  if◌then◌else◌, ltb, contains, keep_if,
}
use evoid_plugins.Py.Dict.{Dict, get, put}
use evoid_plugins.Cluster.Node.{ClusterNode, NodeStatus, is_online}
use evoid_plugins.Cluster.Registry.{Registry, mark_node_offline, mark_node_online}

-- `nodes_ws` holds the ids of the keys of `_nodes_ws`, the connected nodes.
pub record Monitor : Type 0 where
  pub registry : Registry
  pub nodes_ws : List String
  pub last_seen : Dict String ℕ
  pub timeout : ℕ

abbrev pub with_registry : Monitor → Registry → Monitor
with_registry m r = record m { registry = r }

-- `node.last_heartbeat = now`, `node.status = ONLINE` on the registered node
unfoldable pub touch_node : Registry → String → ℕ → Registry
touch_node r node_id now = elim (get r.nodes node_id) [
  | none ↦ r
  | some node ↦
      mark_node_online
        (record r {
          nodes =
              put r.nodes node_id
                (record node { last_heartbeat = now; status = NodeStatus.online });
        })
        node_id
]

unfoldable pub record_heartbeat : Monitor → String → ℕ → Monitor
record_heartbeat m node_id now = record m {
  registry = touch_node m.registry node_id now;
  last_seen = put m.last_seen node_id now;
}

-- `_nodes_ws.pop(node_id, None)`
unfoldable pub disconnect : Monitor → String → Monitor
disconnect m node_id = record m { nodes_ws = keep_if (λ n. not (n == node_id)) m.nodes_ws }

-- `_handle_node_offline`; an error in closing the connection is dropped
unfoldable pub handle_node_offline : Monitor → String → Monitor
handle_node_offline m node_id = elim (get m.registry.nodes node_id) [
  | none ↦ m
  | some node ↦
      if is_online node.status
      then disconnect (with_registry m (mark_node_offline m.registry node_id)) node_id
      else m
]

-- `now - last > self._timeout`
abbrev pub is_late : ℕ → ℕ → ℕ → Bool
is_late timeout now last = ltb timeout (now - last)

-- the loop of `_heartbeat_loop` over a copy of `_last_seen`
unfoldable pub check_each : Dict String ℕ → ℕ → Monitor → Monitor
check_each [] now m = m
check_each ((node_id, last) ∷ rest) now m =
    check_each rest now (if is_late m.timeout now last then handle_node_offline m node_id else m)

unfoldable pub check_dead : ℕ → Monitor → Monitor
check_dead now m = check_each m.last_seen now m
