-- ===== src/Cluster/Node.antt =====
-- packages/evoid-cluster/evoid_cluster/node.py
use evoid_plugins.Prelude.{ℕ, String, Bool, true, false, List}

pub data NodeStatus : Type 0 where
  online offline degraded : NodeStatus

-- `last_heartbeat` is a clock reading in ticks.
pub record ClusterNode : Type 0 where
  pub node_id : String
  pub name : String
  pub host : String
  pub port : ℕ
  pub roles : List String
  pub services : List String
  pub status : NodeStatus
  pub last_heartbeat : ℕ

-- `status == NodeStatus.ONLINE`
abbrev pub is_online : NodeStatus → Bool
is_online NodeStatus.online = true
is_online NodeStatus.offline = false
is_online NodeStatus.degraded = false
