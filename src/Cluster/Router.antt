-- ===== src/Cluster/Router.antt =====
-- packages/evoid-cluster/evoid_cluster/router.py: the class `IntentRouter`.
-- `W` is the world of executors and connections, `I` the type of intents and `V` that of results. A
-- message is held decoded. Where the router awaits a reply, the world says what arrives for it.
pub mod Attempts
pub mod Failover
pub mod Pending
use evoid_plugins.Prelude.{
  ℕ, String, Bool, true, false, not, ◌&&◌, Option, none, some, List, [], ◌∷◌, string_eq, nat_eq,
  ◌==◌, if◌then◌else◌, contains, keep_if,
}
use evoid_plugins.Py.Exec.{
  Error, value_error, runtime_error, timeout_error, Result, ok, err, Exec, pure, raise, ◌>>=◌, ◌>>◌,
}
use evoid_plugins.Cluster.Node.{ClusterNode}
use evoid_plugins.Cluster.Registry
use evoid_plugins.Cluster.Registry.{Registry, resolve_load_balanced, resolve_all, mark_node_offline}

-- The payload of a message to another node, and of one that comes in. A `call` holds `none` where no
-- intent can be made of it.
pub data Payload (I V : Type 0) : Type 0 where
  call : Option I → Payload I V
  result : (success : Bool) → V → Payload I V
  failure : Payload I V
  foreign_message : Payload I V

pub record Message (I V : Type 0) : Type 0 where
  pub source_node : String
  pub target_node : String
  pub message_id : String
  pub payload : Payload I V

-- What the router calls. `execute` is the local executor, `send` the bridge's `send`, `new_id` is
-- `generate_id`, and `arrival` is what comes in for a message before the time is up, if anything does.
-- `outcome` is what a result says of its success and its value.
pub record Wiring (W I V : Type 0) : Type 0 where
  pub name_of : I → String
  pub timeout_of : I → ℕ
  pub outcome : V → Bool × V
  pub execute : I → W → Result V × W
  pub new_id : W → String × W
  pub send : String → Message I V → W → Result (Unit {0}) × W
  pub arrival : String → ℕ → W → Option (Payload I V) × W

-- `pending` lists the keys of `_pending`.
pub record IntentRouter : Type 0 where
  pub registry : Registry
  pub local_node_id : String
  pub pending : List String

abbrev pub Method : (W A : Type 0) → Type 0
Method W A = Exec (IntentRouter × W) A

-- `_pending.pop(message_id, None)`
unfoldable pub forget : IntentRouter → String → IntentRouter
forget r message_id = record r { pending = keep_if (λ p. not (p == message_id)) r.pending }

unfoldable pub await_id : IntentRouter → String → IntentRouter
await_id r message_id = record r { pending = message_id ∷ r.pending }

-- `self._registry.mark_node_offline(node_id)`
unfoldable pub give_up_on : IntentRouter → String → IntentRouter
give_up_on r node_id = record r { registry = mark_node_offline r.registry node_id }

-- `timeout or default`
abbrev pub timeout_or : Option ℕ → ℕ → ℕ
timeout_or none default = default
timeout_or (some t) default = if t == 0 then default else t

module _ {W I V : Type 0} (wiring : Wiring W I V) where
  open wiring use {name_of, timeout_of, outcome, execute, new_id, send, arrival}

  -- what a reply sets a future to
  unfoldable pub settled : Payload I V → Result V
  settled (result true v) = ok v
  settled _ = err runtime_error

  -- the end of the wait: the reply has been taken from `_pending`, or the time is up
  unfoldable pub finish : String → Option (Payload I V) → Method W V
  finish message_id none (r, w) = (err timeout_error, (forget r message_id, w))
  finish message_id (some payload) (r, w) = (settled payload, (forget r message_id, w))

  unfoldable pub wait_for : String → ℕ → Method W V
  wait_for message_id timeout (r, w) =
      let (arrived, w') = arrival message_id timeout w in finish message_id arrived (r, w')

  -- `_forward_remote`: only a time-out is handled, and what `send` raises goes on
  unfoldable pub forward_remote : I → ClusterNode → ℕ → Method W V
  forward_remote intent node timeout (r, w) =
      let (message_id, w') = new_id w in
      let message : Message I V = record {
        source_node = r.local_node_id;
        target_node = node.node_id;
        message_id = message_id;
        payload = call (some intent);
      } in
      let sent : Result (Unit {0}) × W = send node.node_id message w' in
      let waiting = await_id r message_id in
      elim sent.0 [
        | err e ↦ (err e, (waiting, sent.1))
        | ok u ↦ wait_for message_id timeout (waiting, sent.1)
      ]

  unfoldable pub execute_local : I → Method W V
  execute_local intent (r, w) = let (answer, w') = execute intent w in (answer, (r, w'))

  unfoldable pub route_to : I → ℕ → Option ClusterNode → Method W V
  route_to intent timeout none s = raise value_error s
  route_to intent timeout (some node) (r, w) =
      if node.node_id == r.local_node_id
      then execute_local intent (r, w)
      else forward_remote intent node timeout (r, w)

  unfoldable pub route : I → Option ℕ → Bool → Method W V
  route intent timeout load_balance (r, w) =
      let seconds = timeout_or timeout (timeout_of intent) in
      let (node, registry) = resolve_load_balanced r.registry (name_of intent) in
      if load_balance
      then route_to intent seconds node (record r { registry = registry }, w)
      else route_to intent seconds (Registry.resolve r.registry (name_of intent)) (r, w)

  -- the answer of an attempt, or else what follows its handler
  abbrev pub or_then : Result V × (IntentRouter × W) → Method W V → Result V × (IntentRouter × W)
  or_then (ok v, s) others = (ok v, s)
  or_then (err e, s) others = others s

  -- the loop of `route_with_failover`
  unfoldable pub try_nodes : I → ℕ → List ClusterNode → Method W V
  try_nodes intent timeout [] s = raise runtime_error s
  try_nodes intent timeout (node ∷ rest) (r, w) =
      let others : Method W V = try_nodes intent timeout rest in
      let marked : Method W V = λ (r', w'). others (give_up_on r' node.node_id, w') in
      if node.node_id == r.local_node_id
      then or_then (execute_local intent (r, w)) others
      else or_then (forward_remote intent node timeout (r, w)) marked

  unfoldable pub failover : I → Option ℕ → List ClusterNode → Method W V
  failover intent timeout [] = raise value_error
  failover intent timeout (node ∷ rest) = try_nodes intent (timeout_or timeout 5) (node ∷ rest)

  unfoldable pub route_with_failover : I → Option ℕ → Method W V
  route_with_failover intent timeout (r, w) =
      failover intent timeout (resolve_all r.registry (name_of intent)) (r, w)

  -- a reply to a message
  abbrev pub reply : Message I V → String → Payload I V → Message I V
  reply m local_node_id payload = record {
    source_node = local_node_id;
    target_node = m.source_node;
    message_id = m.message_id;
    payload = payload;
  }

  unfoldable pub send_reply : Message I V → Payload I V → Method W (Unit {0})
  send_reply m payload (r, w) =
      let (sent, w') = send m.source_node (reply m r.local_node_id payload) w in (sent, (r, w'))

  -- the `try` block of `_handle_remote_intent`
  unfoldable pub serve_call : Message I V → Option I → Method W (Unit {0})
  serve_call m none = raise value_error
  serve_call m (some intent) = do
    v ← execute_local intent
    send_reply m (result (outcome v).0 (outcome v).1)

  abbrev pub or_report :
      Message I V → Result (Unit {0}) × (IntentRouter × W) → Result (Unit {0}) × (IntentRouter × W)
  or_report m (ok u, s) = (ok u, s)
  or_report m (err e, s) = send_reply m failure s

  -- `_handle_remote_intent`
  unfoldable pub handle_remote_intent : Message I V → Option I → Method W (Unit {0})
  handle_remote_intent m intent s = or_report m (serve_call m intent s)

  -- `handle_incoming`: what a reply sets the future of its message to, where one is pending
  unfoldable pub handle_incoming : Message I V → Method W (Option (Result V))
  handle_incoming m (r, w) = elim m.payload [
    | call intent ↦ (do handle_remote_intent m intent; pure none) (r, w)
    | result success v ↦ (
      ok (if contains r.pending m.message_id then some (settled (result success v)) else none),
      (forget r m.message_id, w),
    )
    | failure ↦ (
      ok (if contains r.pending m.message_id then some (err runtime_error) else none),
      (forget r m.message_id, w),
    )
    | foreign_message ↦ (ok none, (r, w))
  ]
