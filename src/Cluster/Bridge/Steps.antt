-- ===== src/Cluster/Bridge/Steps.antt =====
-- What messages and connections do to the registry of the bridge.
use evoid_plugins.Prelude.{
  ℕ, ◌≡◌, refl, sym, String, true, false, Option, none, some, List, [], arith, string_eq, ==_iff,
  contains, Bool-cases, inl, inr,
}
use mathlib.Core.Path.{subst}
use evoid_plugins.Py.Dict.{get, has_key}
use evoid_plugins.Py.Dict.Laws.{get-put}
use evoid_plugins.Cluster.Node.{NodeStatus}
use evoid_plugins.Cluster.Registry.{register_node, mark_node_offline}
use evoid_plugins.Cluster.Registry.ServiceMap.{lists}
use evoid_plugins.Cluster.Registry.Consistency.{
  IsConsistent, serves, lists-register_node, register_node-IsConsistent,
  unregister_node-IsConsistent, update_services-IsConsistent, set_status-IsConsistent,
}
use evoid_plugins.Cluster.Health.{disconnect, check_dead}
use evoid_plugins.Cluster.Health.Liveness.{Monitor-IsConsistent}
use evoid_plugins.Cluster.Router.{foreign_message, Wiring, handle_incoming}
use evoid_plugins.Cluster.Bridge.{
  ClusterBridge, Kind, heartbeat, withdraw, announce, routed, Received, Sockets, with_monitor,
  peer_node, join_peer, on_announce, lose_peer, to_router, handle_message, listen_message,
}
use evoid_plugins.Cluster.Bridge.Frame.{
  registry_of, serves-update_services, to_router-registry, on_heartbeat-registry,
  on_withdraw-registry,
}

module _ {W I V : Type 0} (sockets : Sockets W) (wiring : Wiring W I V) where
  on_announce-IsConsistent :
      (b : ClusterBridge) (source : String) (services : Option (List String))
      → IsConsistent (registry_of b)
      → IsConsistent (registry_of (on_announce b source services))
  unfolding on_announce
  on_announce-IsConsistent b source services c =
      elim (Bool-cases (has_key b.monitor.registry.nodes source)) [
        | inl known ↦
            rw (known, on_announce)
              (update_services-IsConsistent b.monitor.registry source
                (elim services [ none ↦ [] | some l ↦ l ]) c)
        | inr unknown ↦ rw (unknown, on_announce) c
      ]

  handle_message-IsConsistent :
      (m : Received I V) (b : ClusterBridge) (w : W)
      → IsConsistent (registry_of b)
      → IsConsistent (registry_of (handle_message sockets wiring m (b, w)).1.0)
  unfolding handle_message
  handle_message-IsConsistent m b w c = go m.kind refl
    where
      go :
          (k : Kind I V)
          → m.kind ≡ k
          → IsConsistent (registry_of (handle_message sockets wiring m (b, w)).1.0)
      go heartbeat e =
          rw (e, handle_message)
            (subst IsConsistent (sym (on_heartbeat-registry sockets wiring m b w))
              (Monitor-IsConsistent b.monitor m.source_node (sockets.clock w) c).0)
      go withdraw e =
          rw (e, handle_message)
            (subst IsConsistent (sym (on_withdraw-registry sockets wiring m.source_node b w))
              (unregister_node-IsConsistent b.monitor.registry m.source_node c))
      go (announce services) e =
          rw (e, handle_message) (on_announce-IsConsistent b m.source_node services c)
      go (routed payload) e =
          rw (e, handle_message)
            (subst IsConsistent (sym (to_router-registry sockets wiring m payload b w)) c)

  listen_message-IsConsistent :
      (m : Received I V) (b : ClusterBridge) (w : W)
      → IsConsistent (registry_of b)
      → IsConsistent (registry_of (listen_message sockets wiring m (b, w)).1.0)
  unfolding listen_message
  listen_message-IsConsistent m b w c = go m.kind refl
    where
      go :
          (k : Kind I V)
          → m.kind ≡ k
          → IsConsistent (registry_of (listen_message sockets wiring m (b, w)).1.0)
      go heartbeat e =
          rw (e, listen_message)
            (Monitor-IsConsistent b.monitor m.source_node (sockets.clock w) c).0
      go withdraw e =
          rw (e, listen_message)
            (subst IsConsistent (sym (to_router-registry sockets wiring m foreign_message b w)) c)
      go (announce services) e =
          rw (e, listen_message)
            (subst IsConsistent (sym (to_router-registry sockets wiring m foreign_message b w)) c)
      go (routed payload) e =
          rw (e, listen_message)
            (subst IsConsistent (sym (to_router-registry sockets wiring m payload b w)) c)

  -- What happens to a bridge: a message on a connection that a peer made, or on one that it made; the
  -- end of the latter; a check for dead nodes; and the connection to a peer that the registry does not
  -- know.
  pub data Step (b : ClusterBridge) : ClusterBridge → Type 0 where
    received : (m : Received I V) (w : W) → Step b (handle_message sockets wiring m (b, w)).1.0
    heard : (m : Received I V) (w : W) → Step b (listen_message sockets wiring m (b, w)).1.0
    lost : (peer_id : String) → Step b (lose_peer b peer_id)
    checked : (now : ℕ) → Step b (with_monitor b (check_dead now b.monitor))
    joined :
        (peer_id host : String) (port : ℕ)
        → get b.monitor.registry.nodes peer_id ≡ none
        → Step b (join_peer b peer_id host port)

  pub data Steps (b : ClusterBridge) : ClusterBridge → Type 0 where
    start : Steps b b
    then_step : {c d : ClusterBridge} → Steps b c → Step c d → Steps b d

  Step-IsConsistent :
      (b : ClusterBridge) {c : ClusterBridge}
      → Step b c
      → IsConsistent (registry_of b)
      → IsConsistent (registry_of c)
  unfolding lose_peer join_peer disconnect mark_node_offline
  Step-IsConsistent b (received m w) c = handle_message-IsConsistent m b w c
  Step-IsConsistent b (heard m w) c = listen_message-IsConsistent m b w c
  Step-IsConsistent b (lost peer_id) c =
      set_status-IsConsistent b.monitor.registry peer_id NodeStatus.offline c
  Step-IsConsistent b (checked now) c = (Monitor-IsConsistent b.monitor "" now c).1
  Step-IsConsistent b (joined peer_id host port fresh) c =
      register_node-IsConsistent b.monitor.registry (peer_node peer_id host port) fresh c

  -- Whatever messages, lost connections, checks and new peers a bridge meets, in whatever order: the
  -- two views of its registry go on agreeing.
  pub Steps-IsConsistent :
      (b : ClusterBridge) {c : ClusterBridge}
      → IsConsistent (registry_of b)
      → Steps b c
      → IsConsistent (registry_of c)
  Steps-IsConsistent b c start = c
  Steps-IsConsistent b c (then_step {c = d} steps step) =
      Step-IsConsistent d step (Steps-IsConsistent b c steps)

  -- An announcement of a registered node, or its withdrawal, that comes in on a connection that the bridge
  -- itself made changes nothing of the bridge; on one that the peer made, the announcement makes the
  -- node offer exactly the announced services.
  pub announce_lem :
      (m : Received I V) (services : List String) (b : ClusterBridge) (w : W) (svc : String)
      → m.kind ≡ announce (some services)
      → has_key b.monitor.registry.nodes m.source_node ≡ true
      → ((listen_message sockets wiring m (b, w)).1.0 ≡ b)
        × ((listen_message sockets wiring (record m { kind = withdraw }) (b, w)).1.0 ≡ b)
        × (serves (registry_of (handle_message sockets wiring m (b, w)).1.0) svc m.source_node
            ≡ contains services svc)
  unfolding listen_message handle_message to_router handle_incoming on_announce
  announce_lem m services b w svc announced known = ground (
    arith,
    announced,
    known,
    serves-update_services b.monitor.registry m.source_node svc services known,
  )

  -- A peer that is connected to once more is registered without services, and the service map goes on
  -- listing it under all that it had offered.
  pub join_peer_again :
      (b : ClusterBridge) (peer_id host svc : String) (port : ℕ)
      → IsConsistent (registry_of b)
      → serves (registry_of b) svc peer_id ≡ true
      → (serves (registry_of (join_peer b peer_id host port)) svc peer_id ≡ false)
        × (lists (registry_of (join_peer b peer_id host port)).service_map svc peer_id ≡ true)
  unfolding join_peer register_node contains
  join_peer_again b peer_id host svc port c offered = ground (
    arith,
    lists-register_node (registry_of b) (peer_node peer_id host port) svc peer_id c,
    offered,
    ==_iff peer_id peer_id,
    serves_peer,
  )
    where
      serves_peer :
          serves (register_node (registry_of b) (peer_node peer_id host port)) svc peer_id ≡ false
      serves_peer = ground (
        arith,
        get-put b.monitor.registry.nodes peer_id peer_id (peer_node peer_id host port),
        ==_iff peer_id peer_id,
      )
