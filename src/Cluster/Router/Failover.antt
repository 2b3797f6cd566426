-- ===== src/Cluster/Router/Failover.antt =====
-- What `route_with_failover` answers, and what it leaves of the registry.
use evoid_plugins.Prelude.{
  ℕ, ◌≡◌, String, List, [], ◌∷◌, ◌++◌, map, arith, string_eq, ◌==◌, if◌then◌else◌,
}
use evoid_plugins.Py.Exec.{runtime_error, Result, ok, err}
use evoid_plugins.Cluster.Node.{ClusterNode}
use evoid_plugins.Cluster.Registry.{Registry, mark_node_offline}
use evoid_plugins.Cluster.Router.Attempts.{Answers, AllFail}
use evoid_plugins.Cluster.Router.{Wiring, IntentRouter, forget, wait_for, finish}

-- the registry after these nodes have failed: the remote ones are offline
unfoldable pub mark_failed : String → List ClusterNode → Registry → Registry
mark_failed local_node_id [] r = r
mark_failed local_node_id (node ∷ rest) r =
    mark_failed local_node_id rest
      (if node.node_id == local_node_id then r else mark_node_offline r node.node_id)

-- the ids of the nodes
abbrev pub ids : List ClusterNode → List String
ids nodes = map (λ node. node.node_id) nodes

module _ {W I V : Type 0} (wiring : Wiring W I V) where
  -- an attempt changes neither the registry nor the node's own id
  abbrev SameRouter : IntentRouter → IntentRouter → Type 0
  SameRouter r r' = (r'.registry ≡ r.registry) × (r'.local_node_id ≡ r.local_node_id)

  wait_for-SameRouter :
      (message_id : String) (timeout : ℕ) (r : IntentRouter) (w : W)
      → SameRouter r (wait_for wiring message_id timeout (r, w)).1.0
  unfolding wait_for finish forget
  wait_for-SameRouter message_id timeout r w = ground arith

module _ {W I V : Type 0} (wiring : Wiring W I V) (intent : I) (timeout : ℕ) (self : String) where
  -- how the loop ended: all nodes failed, or the last that was tried answered
  abbrev IsEnd : List ClusterNode → Registry → W → Result V × (IntentRouter × W) → Type 0
  IsEnd nodes g w (err e, (r', w')) =
      (e ≡ runtime_error)
      × (r'.registry ≡ mark_failed self nodes g)
      × AllFail wiring intent timeout self nodes w w'
  IsEnd nodes g w (ok v, (r', w')) =
      (failed : List ClusterNode) × (node : ClusterNode) × (rest : List ClusterNode) × (w1 : W)
      × (nodes ≡ failed ++ node ∷ rest)
      × (r'.registry ≡ mark_failed self failed g)
      × AllFail wiring intent timeout self failed w w1
      × Answers wiring intent timeout self node v w1 w'

  -- the registry once the node has failed
  abbrev without : ClusterNode → Registry → Registry
  without node g = if node.node_id == self then g else mark_node_offline g node.node_id
