-- ===== src/Cluster/Bridge.antt =====
-- packages/evoid-cluster/evoid_cluster/bridge.py: the class `ClusterBridge`, message by message.
-- The registry is shared: it is held with the health checker's state, and lent to the router.
pub mod Frame
pub mod Steps
use evoid_plugins.Prelude.{
  ℕ, ◌-◌, String, Bool, true, false, not, ◌&&◌, Option, none, some, List, [], ◌∷◌, ◌++◌, string_eq,
  ◌==◌, if◌then◌else◌, length, contains, keep_if,
}
use evoid_plugins.Py.Dict.{Dict, get, has_key, keys, put}
use evoid_plugins.Py.Exec.{Result, ok, err, Exec, pure, ◌>>=◌, ◌>>◌}
use evoid_plugins.Cluster.Node.{ClusterNode, NodeStatus, is_online}
use evoid_plugins.Cluster.Registry.{
  Registry, ServiceMap, register_node, unregister_node, update_services, mark_node_offline,
  is_local, get_all_nodes, get_all_services,
}
use evoid_plugins.Cluster.Health.{Monitor, with_registry, record_heartbeat, disconnect, check_dead}
use evoid_plugins.Cluster.Router.{
  Payload, foreign_message, Message, Wiring, IntentRouter, handle_incoming, route_with_failover,
}

-- `peers` has the host and the port of each peer.
pub record ClusterConfig : Type 0 where
  pub node_id : String
  pub name : String
  pub host : String
  pub port : ℕ
  pub roles : List String
  pub services : List String
  pub peers : Dict String (String × ℕ)

-- `shares_services` says whether the node that the registry holds under the bridge's own id has the list
-- `config.services` itself, and not one of its own.
pub record ClusterBridge : Type 0 where
  pub config : ClusterConfig
  pub shares_services : Bool
  pub monitor : Monitor
  pub pending : List String

-- The kinds of messages that the bridge tells apart; `announce` has the list under `services`.
pub data Kind (I V : Type 0) : Type 0 where
  heartbeat withdraw : Kind I V
  announce : Option (List String) → Kind I V
  routed : Payload I V → Kind I V

pub record Received (I V : Type 0) : Type 0 where
  pub source_node : String
  pub target_node : Option String
  pub message_id : String
  pub kind : Kind I V

-- What the bridge does on sockets: the clock, the reply to a heartbeat, the end of a connection and a
-- new one.
pub record Sockets (W : Type 0) : Type 0 where
  pub clock : W → ℕ
  pub pong : String → W → Result (Unit {0}) × W
  pub close : String → W → Result (Unit {0}) × W
  pub connect : String → String → ℕ → W → Result (Unit {0}) × W

abbrev pub Method : (W A : Type 0) → Type 0
Method W A = Exec (ClusterBridge × W) A

abbrev pub with_monitor : ClusterBridge → Monitor → ClusterBridge
with_monitor b m = record b { monitor = m }

abbrev pub change_registry : ClusterBridge → Registry → ClusterBridge
change_registry b r = with_monitor b (with_registry b.monitor r)

-- the router on the bridge's registry
abbrev pub router_of : ClusterBridge → IntentRouter
router_of b = record {
  registry = b.monitor.registry;
  local_node_id = b.config.node_id;
  pending = b.pending;
}

abbrev pub take_back : ClusterBridge → IntentRouter → ClusterBridge
take_back b r = record (change_registry b r.registry) { pending = r.pending }

-- the node that stands for this process
abbrev pub local_node : ClusterConfig → ClusterNode
local_node c = record {
  node_id = c.node_id;
  name = c.name;
  host = c.host;
  port = c.port;
  roles = c.roles;
  services = c.services;
  status = NodeStatus.online;
  last_heartbeat = 0;
}

-- `start` registers the node that stands for this process, with the list of the configuration.
unfoldable pub register_local : ClusterBridge → ClusterBridge
register_local b =
    record (change_registry b (register_node b.monitor.registry (local_node b.config))) {
      shares_services = true;
    }

-- the node with this id gets a list of its own, or is another one
abbrev pub unshared : ClusterBridge → String → ClusterBridge
unshared b id = record b {
  shares_services = if id == b.config.node_id then false else b.shares_services;
}

-- the node that `_connect_to_peer` registers
abbrev pub peer_node : String → String → ℕ → ClusterNode
peer_node peer_id host port = record {
  node_id = peer_id;
  name = peer_id;
  host = host;
  port = port;
  roles = [];
  services = [];
  status = NodeStatus.online;
  last_heartbeat = 0;
}

-- `_nodes_ws[peer_id] = ws`
abbrev pub connected : Monitor → String → Monitor
connected m peer_id =
    if contains m.nodes_ws peer_id then m else record m { nodes_ws = m.nodes_ws ++ peer_id ∷ [] }

unfoldable pub join_peer : ClusterBridge → String → String → ℕ → ClusterBridge
join_peer b peer_id host port =
    let linked = with_monitor (unshared b peer_id) (connected b.monitor peer_id) in
    change_registry linked (register_node b.monitor.registry (peer_node peer_id host port))

abbrev pub services_of : Option (List String) → List String
services_of none = []
services_of (some services) = services

unfoldable pub on_announce : ClusterBridge → String → Option (List String) → ClusterBridge
on_announce b source services =
    if has_key b.monitor.registry.nodes source
    then change_registry (unshared b source)
        (update_services b.monitor.registry source (services_of services))
    else b

unfoldable pub drop_peer : ClusterBridge → String → ClusterBridge
drop_peer b source =
    with_monitor (unshared b source)
      (disconnect (with_registry b.monitor (unregister_node b.monitor.registry source)) source)

-- the `finally` clause of `_listen_peer`
unfoldable pub lose_peer : ClusterBridge → String → ClusterBridge
lose_peer b peer_id =
    with_monitor b
      (with_registry (disconnect b.monitor peer_id) (mark_node_offline b.monitor.registry peer_id))

module _ {W I V : Type 0} (sockets : Sockets W) (wiring : Wiring W I V) where
  open sockets use {clock, pong, close, connect}

  unfoldable pub to_router : Received I V → Payload I V → Method W (Unit {0})
  to_router m payload (b, w) =
      let message : Message I V = record {
        source_node = m.source_node;
        target_node = b.config.node_id;
        message_id = m.message_id;
        payload = payload;
      } in
      let (answer, (r, w')) = handle_incoming wiring message (router_of b, w) in
      (elim answer [ ok settled ↦ ok tt | err e ↦ err e ], (take_back b r, w'))

  unfoldable pub on_heartbeat : Received I V → Method W (Unit {0})
  on_heartbeat m (b, w) =
      let b' = with_monitor b (record_heartbeat b.monitor m.source_node (clock w)) in
      let replied : Result (Unit {0}) × W = pong m.source_node w in
      elim m.target_node [
        | none ↦ (ok tt, (b', w))
        | some target ↦
            if target == b.config.node_id then (replied.0, (b', replied.1)) else (ok tt, (b', w))
      ]

  unfoldable pub on_withdraw : String → Method W (Unit {0})
  on_withdraw source (b, w) =
      let closed : Result (Unit {0}) × W = close source w in
      if contains b.monitor.nodes_ws source
      then (closed.0, (drop_peer b source, closed.1))
      else (ok tt, (drop_peer b source, w))

  -- one message of the loop of `_handle_connection`
  unfoldable pub handle_message : Received I V → Method W (Unit {0})
  handle_message m (b, w) = elim m.kind [
    | heartbeat ↦ on_heartbeat m (b, w)
    | announce services ↦ (ok tt, (on_announce b m.source_node services, w))
    | withdraw ↦ on_withdraw m.source_node (b, w)
    | routed payload ↦ to_router m payload (b, w)
  ]

  -- one message of the loop of `_listen_peer`: the router ignores announcements and withdrawals
  unfoldable pub listen_message : Received I V → Method W (Unit {0})
  listen_message m (b, w) = elim m.kind [
    | heartbeat ↦ (ok tt, (with_monitor b (record_heartbeat b.monitor m.source_node (clock w)), w))
    | announce services ↦ to_router m foreign_message (b, w)
    | withdraw ↦ to_router m foreign_message (b, w)
    | routed payload ↦ to_router m payload (b, w)
  ]

  -- `_connect_to_peer`: a connection that fails is logged only
  unfoldable pub connect_to_peer : String → String → ℕ → Method W (Unit {0})
  connect_to_peer peer_id host port (b, w) =
      let (answer, w') = connect peer_id host port w in
      (ok tt, (elim answer [ err e ↦ b | ok u ↦ join_peer b peer_id host port ], w'))

  unfoldable pub connect_each : Dict String (String × ℕ) → Method W (Unit {0})
  connect_each [] = pure tt
  connect_each ((peer_id, (host, port)) ∷ rest) = do
    connect_to_peer peer_id host port
    connect_each rest

  -- the handler that `_make_local_handler` makes; `none` leaves the intent to local processing
  unfoldable pub local_handler : I → Method W (Option V)
  local_handler intent (b, w) =
      let (answer, (r, w')) = route_with_failover wiring intent none (router_of b, w) in
      if is_local b.monitor.registry (wiring.name_of intent) b.config.node_id
      then (ok none, (b, w))
      else (ok (elim answer [ ok v ↦ some v | err e ↦ none ]), (take_back b r, w'))

-- the figures of `health`: nodes, online, offline and services
unfoldable pub health : ClusterBridge → ℕ × ℕ × ℕ × ℕ
health b =
    let nodes = get_all_nodes b.monitor.registry in
    let online = length (keep_if (λ n. is_online n.status) nodes) in
    (length nodes, online, length nodes - online, length (get_all_services b.monitor.registry))

-- the node with one more service in its list, which the service map does not learn of
abbrev append_service : Registry → String → String → Registry
append_service r node_id pattern = elim (get r.nodes node_id) [
  | none ↦ r
  | some node ↦ record r {
    nodes = put r.nodes node_id (record node { services = node.services ++ pattern ∷ [] });
  }
]

-- `service`: a pattern is listed once. Where the registered node shares the list, it has the pattern too.
unfoldable pub service : ClusterBridge → String → ClusterBridge
service b pattern =
    let listed = record b {
      config = record b.config { services = b.config.services ++ pattern ∷ [] };
    } in
    let shared =
      change_registry listed (append_service b.monitor.registry b.config.node_id pattern) in
    if contains b.config.services pattern then b else if b.shares_services then shared else listed
