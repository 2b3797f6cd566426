-- ===== src/Cluster/Bridge/Frame.antt =====
-- What a single message leaves of the registry.
use evoid_plugins.Prelude.{
  ◌≡◌, refl, String, true, Option, none, some, List, arith, string_eq, ==_iff, contains,
  Option-cases, inl, inr,
}
use evoid_plugins.Py.Dict.{get, has_key}
use evoid_plugins.Py.Dict.Laws.{get-put, has_key-eq}
use evoid_plugins.Cluster.Registry.{Registry, unregister_node, update_services}
use evoid_plugins.Cluster.Registry.Consistency.{serves}
use evoid_plugins.Cluster.Health.{record_heartbeat, disconnect}
use evoid_plugins.Cluster.Router.{
  Payload, call, result, failure, foreign_message, Message, Wiring, IntentRouter, forget,
  execute_local, send_reply, serve_call, handle_remote_intent, handle_incoming,
}
use evoid_plugins.Cluster.Bridge.{
  ClusterBridge, Received, Sockets, router_of, drop_peer, to_router, on_heartbeat, on_withdraw,
}

abbrev pub registry_of : ClusterBridge → Registry
registry_of b = b.monitor.registry

pub serves-update_services :
    (r : Registry) (k svc : String) (services : List String)
    → has_key r.nodes k ≡ true
    → serves (update_services r k services) svc k ≡ contains services svc
unfolding update_services
serves-update_services r k svc services known = elim (Option-cases (get r.nodes k)) [
  | inl absent ↦ ground (arith, has_key-eq r.nodes k)
  | inr (node, found) ↦
      ground (arith, found, get-put r.nodes k k (record node { services = services }), ==_iff k k)
]

module _ {W I V : Type 0} (wiring : Wiring W I V) where
  pub serve_call-router :
      (m : Message I V) (intent : Option I) (r : IntentRouter) (w : W)
      → (serve_call wiring m intent (r, w)).1.0 ≡ r
  unfolding serve_call execute_local send_reply
  serve_call-router m none r w = refl
  serve_call-router m (some intent) r w = ground arith

  pub handle_remote_intent-router :
      (m : Message I V) (intent : Option I) (r : IntentRouter) (w : W)
      → (handle_remote_intent wiring m intent (r, w)).1.0 ≡ r
  unfolding handle_remote_intent send_reply
  handle_remote_intent-router m intent r w = ground (arith, serve_call-router m intent r w)

  pub handle_incoming-registry :
      (m : Message I V) (r : IntentRouter) (w : W)
      → (handle_incoming wiring m (r, w)).1.0.registry ≡ r.registry
  unfolding handle_incoming forget
  handle_incoming-registry m r w = go m.payload refl
    where
      go :
          (p : Payload I V)
          → m.payload ≡ p
          → (handle_incoming wiring m (r, w)).1.0.registry ≡ r.registry
      go (call intent) e = ground (arith, handle_remote_intent-router m intent r w)
      go (result success v) e = ground arith
      go failure e = ground arith
      go foreign_message e = ground arith

module _ {W I V : Type 0} (sockets : Sockets W) (wiring : Wiring W I V) where
  pub to_router-registry :
      (m : Received I V) (payload : Payload I V) (b : ClusterBridge) (w : W)
      → registry_of (to_router sockets wiring m payload (b, w)).1.0 ≡ registry_of b
  unfolding to_router
  to_router-registry m payload b w =
      handle_incoming-registry wiring
        (record {
          source_node = m.source_node;
          target_node = b.config.node_id;
          message_id = m.message_id;
          payload = payload;
        })
        (router_of b) w

  pub on_heartbeat-registry :
      (m : Received I V) (b : ClusterBridge) (w : W)
      → registry_of (on_heartbeat sockets wiring m (b, w)).1.0
        ≡ (record_heartbeat b.monitor m.source_node (sockets.clock w)).registry
  unfolding on_heartbeat
  on_heartbeat-registry m b w = ground (arith, Option-cases m.target_node)

  pub on_withdraw-registry :
      (source : String) (b : ClusterBridge) (w : W)
      → registry_of (on_withdraw sockets wiring source (b, w)).1.0
        ≡ unregister_node b.monitor.registry source
  unfolding on_withdraw drop_peer disconnect
  on_withdraw-registry source b w = ground arith
