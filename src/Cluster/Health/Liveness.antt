-- ===== src/Cluster/Health/Liveness.antt =====
-- What heartbeats and the check for dead nodes do to the registry and the connections.
use evoid_plugins.Prelude.{
  ℕ, ◌+◌, ◌≤◌, ◌≡◌, refl, String, Bool, true, false, not, ◌&&◌, ◌||◌, Option, none, some, [], ◌∷◌,
  arith, string_eq, ◌==◌, ==_iff, if◌then◌else◌, contains, contains-keep_if, Option-cases,
  Bool-cases, inl, inr,
}
use evoid_plugins.Py.Dict.{Dict, get, has_key, put, unique_keys}
use evoid_plugins.Py.Dict.Laws.{get-put, has_key-eq, put-unique_keys}
use evoid_plugins.Cluster.Node.{ClusterNode, NodeStatus, is_online}
use evoid_plugins.Cluster.Registry.{
  Registry, is_healthy, set_status, mark_node_offline, mark_node_online,
}
use evoid_plugins.Cluster.Registry.Consistency.{IsConsistent, set_status-IsConsistent}
use evoid_plugins.Cluster.Health.{
  Monitor, touch_node, record_heartbeat, disconnect, handle_node_offline, is_late, check_each,
  check_dead,
}

-- the last sign of life of the node is further back than the time-out
abbrev pub overdue : ℕ → ℕ → Option ℕ → Bool
overdue timeout now none = false
overdue timeout now (some last) = is_late timeout now last

-- some entry of the list is overdue
any_overdue : ℕ → ℕ → Dict String ℕ → String → Bool
any_overdue timeout now [] n = false
any_overdue timeout now ((k, last) ∷ rest) n =
    (k == n && is_late timeout now last) || any_overdue timeout now rest n

any_overdue_absent :
    (timeout now : ℕ) (seen : Dict String ℕ) (n : String)
    → has_key seen n ≡ false
    → any_overdue timeout now seen n ≡ false
unfolding any_overdue has_key
any_overdue_absent timeout now [] n h = refl
any_overdue_absent timeout now ((k, last) ∷ rest) n h =
    ground (arith, any_overdue_absent timeout now rest n)

any_overdue-eq :
    (timeout now : ℕ) (seen : Dict String ℕ) (n : String)
    → unique_keys seen ≡ true
    → any_overdue timeout now seen n ≡ overdue timeout now (get seen n)
unfolding any_overdue unique_keys get
any_overdue-eq timeout now [] n u = refl
any_overdue-eq timeout now ((k, last) ∷ rest) n u =
    ground
      (arith, ==_iff k n, any_overdue_absent timeout now rest n, any_overdue-eq timeout now rest n)

-- what a check leaves of a node, if it takes it for dead
record IsCheckedFor (m m' : Monitor) (n : String) (dead : Bool) : Type 0 where
  healthy : is_healthy m'.registry n ≡ (is_healthy m.registry n && not dead)
  connected :
      contains m'.nodes_ws n ≡ (contains m.nodes_ws n && not (dead && is_healthy m.registry n))
  same : (m'.timeout ≡ m.timeout) × (m'.last_seen ≡ m.last_seen)

handle_node_offline_lem :
    (m : Monitor) (k n : String) → IsCheckedFor m (handle_node_offline m k) n (k == n)
unfolding handle_node_offline disconnect mark_node_offline set_status is_healthy
handle_node_offline_lem m k n = elim (Option-cases (get m.registry.nodes k)) [
  | inl absent ↦ record {
    healthy = ground (arith, ==_iff k n);
    connected = ground (arith, ==_iff k n);
    same = ground arith;
  }
  | inr (node, found) ↦ record {
    healthy = ground (
      arith,
      ==_iff k n,
      get-put m.registry.nodes k n (record node { status = NodeStatus.offline }),
    );
    connected =
        ground (arith, ==_iff k n, ==_iff n k, contains-keep_if (λ x. not (x == k)) m.nodes_ws n);
    same = ground arith;
  }
]

check_each_lem :
    (seen : Dict String ℕ) (now : ℕ) (m : Monitor) (n : String)
    → IsCheckedFor m (check_each seen now m) n (any_overdue m.timeout now seen n)
unfolding check_each any_overdue
check_each_lem [] now m n = record {
  healthy = ground arith;
  connected = ground arith;
  same = (refl, refl);
}
check_each_lem ((k, last) ∷ rest) now m n = elim (Bool-cases (is_late m.timeout now last)) [
  | inl late ↦
      let first = handle_node_offline_lem m k n in
      let later = check_each_lem rest now (handle_node_offline m k) n in
      record {
        healthy = ground (arith, late, first.healthy, first.same, later.healthy);
        connected =
            ground (arith, late, first.healthy, first.connected, first.same, later.connected);
        same = ground (arith, late, first.same, later.same);
      }
  | inr timely ↦
      let later = check_each_lem rest now m n in
      record {
        healthy = ground (arith, timely, later.healthy);
        connected = ground (arith, timely, later.connected);
        same = ground (arith, timely, later.same);
      }
]

-- The check takes a node for dead exactly where its last sign of life is further back than the
-- time-out: such a node is healthy no longer, and if it was, it is disconnected. No other node
-- changes its health or its connection.
pub check_dead_lem :
    (m : Monitor) (now : ℕ) (n : String)
    → unique_keys m.last_seen ≡ true
    → (is_healthy (check_dead now m).registry n
        ≡ (is_healthy m.registry n && not (overdue m.timeout now (get m.last_seen n))))
      × (contains (check_dead now m).nodes_ws n ≡ (
          contains m.nodes_ws n
          && not (overdue m.timeout now (get m.last_seen n) && is_healthy m.registry n)))
unfolding check_dead
check_dead_lem m now n u =
    let checked = check_each_lem m.last_seen now m n in
    ground (arith, checked.healthy, checked.connected, any_overdue-eq m.timeout now m.last_seen n u)

-- the node as a heartbeat leaves it
abbrev seen_node : ClusterNode → ℕ → ClusterNode
seen_node node now = record node { last_heartbeat = now; status = NodeStatus.online }

get-touch_node :
    (r : Registry) (k n : String) (now : ℕ)
    → get (touch_node r k now).nodes n ≡ (elim (get r.nodes n) [
      | none ↦ none
      | some node ↦ if k == n then some (seen_node node now) else some node
    ])
unfolding touch_node mark_node_online set_status
get-touch_node r k n now = elim (Option-cases (get r.nodes k)) [
  | inl absent ↦ ground (arith, ==_iff k n)
  | inr (node, found) ↦
      let once = put r.nodes k (seen_node node now) in
      ground (
        arith,
        ==_iff k n,
        ==_iff k k,
        get-put r.nodes k k (seen_node node now),
        get-put r.nodes k n (seen_node node now),
        get-put once k n (seen_node node now),
      )
]

is_healthy-record_heartbeat :
    (m : Monitor) (k n : String) (now : ℕ)
    → is_healthy (record_heartbeat m k now).registry n
      ≡ (if k == n then has_key m.registry.nodes n else is_healthy m.registry n)
unfolding record_heartbeat is_healthy
is_healthy-record_heartbeat m k n now =
    ground (arith, get-touch_node m.registry k n now, has_key-eq m.registry.nodes n)

-- A node that sends a heartbeat is healthy from then on, whatever its state was, and a check within
-- the time-out leaves it so, and connected if it was.
pub check_dead-record_heartbeat :
    (m : Monitor) (k : String) (sent now : ℕ)
    → unique_keys m.last_seen ≡ true
    → has_key m.registry.nodes k ≡ true
    → now ≤ sent + m.timeout
    → (is_healthy (check_dead now (record_heartbeat m k sent)).registry k ≡ true)
      × (contains (check_dead now (record_heartbeat m k sent)).nodes_ws k ≡ contains m.nodes_ws k)
unfolding record_heartbeat
check_dead-record_heartbeat m k sent now u known timely =
    let m' = record_heartbeat m k sent in
    ground (
      arith,
      check_dead_lem m' now k,
      put-unique_keys m.last_seen k sent u,
      is_healthy-record_heartbeat m k k sent,
      ==_iff k k,
      get-put m.last_seen k k sent,
    )

touch_node-service_map :
    (r : Registry) (k : String) (now : ℕ) → (touch_node r k now).service_map ≡ r.service_map
unfolding touch_node mark_node_online set_status
touch_node-service_map r k now = ground (arith, get-put r.nodes k k)

pub touch_node-IsConsistent :
    (r : Registry) (k : String) (now : ℕ) → IsConsistent r → IsConsistent (touch_node r k now)
touch_node-IsConsistent r k now c = record {
  exact = λ svc nid.
      ground (arith, c.exact svc nid, get-touch_node r k nid now, touch_node-service_map r k now);
  keyed = λ nid node h. elim (Option-cases (get r.nodes nid)) [
    | inl absent ↦ ground (arith, get-touch_node r k nid now)
    | inr (old, found) ↦ ground (arith, get-touch_node r k nid now, c.keyed nid old found)
  ];
}

handle_node_offline-IsConsistent :
    (m : Monitor) (k : String)
    → IsConsistent m.registry
    → IsConsistent (handle_node_offline m k).registry
unfolding handle_node_offline disconnect mark_node_offline
handle_node_offline-IsConsistent m k c = elim (Option-cases (get m.registry.nodes k)) [
  | inl absent ↦ rw (absent, handle_node_offline) c
  | inr (node, found) ↦ elim (Bool-cases (is_online node.status)) [
    | inl up ↦
        rw (found, up, handle_node_offline)
          (set_status-IsConsistent m.registry k NodeStatus.offline c)
    | inr down ↦ rw (found, down, handle_node_offline) c
  ]
]

pub check_each-IsConsistent :
    (seen : Dict String ℕ) (now : ℕ) (m : Monitor)
    → IsConsistent m.registry
    → IsConsistent (check_each seen now m).registry
unfolding check_each
check_each-IsConsistent [] now m c = c
check_each-IsConsistent ((k, last) ∷ rest) now m c =
    elim (Bool-cases (is_late m.timeout now last)) [
      | inl late ↦
          rw (late, check_each)
            (check_each-IsConsistent rest now (handle_node_offline m k)
              (handle_node_offline-IsConsistent m k c))
      | inr timely ↦ rw (timely, check_each) (check_each-IsConsistent rest now m c)
    ]

-- Neither a heartbeat nor a check for dead nodes makes the registry's two views of the services
-- disagree.
pub Monitor-IsConsistent :
    (m : Monitor) (k : String) (now : ℕ)
    → IsConsistent m.registry
    → IsConsistent (record_heartbeat m k now).registry × IsConsistent (check_dead now m).registry
unfolding record_heartbeat check_dead
Monitor-IsConsistent m k now c =
    (touch_node-IsConsistent m.registry k now c, check_each-IsConsistent m.last_seen now m c)
