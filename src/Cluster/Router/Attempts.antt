-- ===== src/Cluster/Router/Attempts.antt =====
-- The attempts of `route_with_failover` of packages/evoid-cluster/evoid_cluster/router.py, by what the
-- executor, the connection and the replies do.
use evoid_plugins.Prelude.{
  ℕ, ◌≡◌, refl, ap, sym, ◌∙◌, String, Bool, true, false, Option, none, some, List, [], ◌∷◌,
  string_eq, ◌==◌,
}
use evoid_plugins.Py.Exec.{Error, Result, ok, err}
use evoid_plugins.Cluster.Node.{ClusterNode}
use evoid_plugins.Cluster.Router.{
  Payload, Message, call, result, failure, foreign_message, Wiring, IntentRouter, await_id,
  wait_for, settled, finish, forward_remote,
}

-- whether a reply says that the call succeeded
abbrev pub is_success : {I V : Type 0} → Payload I V → Bool
is_success (result success v) = success
is_success (call intent) = false
is_success failure = false
is_success foreign_message = false

module _ {W I V : Type 0} (wiring : Wiring W I V) (intent : I) (timeout : ℕ) (self : String) where
  open wiring use {execute, new_id, send, arrival}

  -- the message that asks a node for the intent
  abbrev pub request : ClusterNode → String → Message I V
  request node message_id = record {
    source_node = self;
    target_node = node.node_id;
    message_id = message_id;
    payload = call (some intent);
  }

  -- The message has gone to the node under this id.
  pub record IsSent (node : ClusterNode) (message_id : String) (w w' : W) : Type 0 where
    pub remote : (node.node_id == self) ≡ false
    pub before : W
    pub numbered : new_id w ≡ (message_id, before)
    pub went : send node.node_id (request node message_id) before ≡ (ok tt, w')

  -- How a node fails: the local executor raises; the message is not sent, no reply comes in time, or the
  -- reply is no success.
  pub data Fails (node : ClusterNode) (w w' : W) : Type 0 where
    raised_here :
        (e : Error)
        → (node.node_id == self) ≡ true
        → execute intent w ≡ (err e, w')
        → Fails node w w'
    not_sent :
        (message_id : String) (before : W) (e : Error)
        → (node.node_id == self) ≡ false
        → new_id w ≡ (message_id, before)
        → send node.node_id (request node message_id) before ≡ (err e, w')
        → Fails node w w'
    no_reply :
        (message_id : String) (waiting : W)
        → IsSent node message_id w waiting
        → arrival message_id timeout waiting ≡ (none, w')
        → Fails node w w'
    refused :
        (message_id : String) (waiting : W) (reply : Payload I V)
        → IsSent node message_id w waiting
        → arrival message_id timeout waiting ≡ (some reply, w')
        → is_success reply ≡ false
        → Fails node w w'

  -- How a node answers: the local executor does, or the reply to the message that was sent to it.
  pub data Answers (node : ClusterNode) (v : V) (w w' : W) : Type 0 where
    here : (node.node_id == self) ≡ true → execute intent w ≡ (ok v, w') → Answers node v w w'
    replied :
        (message_id : String) (waiting : W)
        → IsSent node message_id w waiting
        → arrival message_id timeout waiting ≡ (some (result true v), w')
        → Answers node v w w'

  -- The nodes fail one after the other.
  pub data AllFail : List ClusterNode → W → W → Type 0 where
    nobody : (w : W) → AllFail [] w w
    one_more :
        (node : ClusterNode) (rest : List ClusterNode) (w w1 w' : W)
        → Fails node w w1
        → AllFail rest w1 w'
        → AllFail (node ∷ rest) w w'

  -- an attempt of the node
  abbrev pub IsAttempt : ClusterNode → W → Result V × (IntentRouter × W) → Type 0
  IsAttempt node w (ok v, (r', w')) = Answers node v w w'
  IsAttempt node w (err e, (r', w')) = Fails node w w'

  arrived :
      (node : ClusterNode) (message_id : String) (w waiting : W) (r : IntentRouter)
      (a : Option (Payload I V) × W)
      → IsSent node message_id w waiting
      → arrival message_id timeout waiting ≡ a
      → IsAttempt node w (finish wiring message_id a.0 (r, a.1))
  unfolding finish settled
  arrived node id w waiting r (none, w') sent came = no_reply id waiting sent came
  arrived node id w waiting r (some (result true v), w') sent came = replied id waiting sent came
  arrived node id w waiting r (some (result false v), w') sent came =
      refused id waiting (result false v) sent came refl
  arrived node id w waiting r (some (call i), w') sent came =
      refused id waiting (call i) sent came refl
  arrived node id w waiting r (some failure, w') sent came =
      refused id waiting failure sent came refl
  arrived node id w waiting r (some foreign_message, w') sent came =
      refused id waiting foreign_message sent came refl

  pub forward_remote-IsAttempt :
      (node : ClusterNode) (r : IntentRouter) (w : W)
      → (node.node_id == self) ≡ false
      → r.local_node_id ≡ self
      → IsAttempt node w (forward_remote wiring intent node timeout (r, w))
  unfolding forward_remote wait_for
  forward_remote-IsAttempt node r w remote own = sent (send node.node_id asked (new_id w).1) refl
    where
      id : String
      id = (new_id w).0

      asked : Message I V
      asked = record {
        source_node = r.local_node_id;
        target_node = node.node_id;
        message_id = id;
        payload = call (some intent);
      }

      same : asked ≡ request node id
      same =
          ap
            (λ s. record {
              source_node = s;
              target_node = node.node_id;
              message_id = id;
              payload = call (some intent);
            })
            own

      sent :
          (p : Result (Unit {0}) × W)
          → send node.node_id asked (new_id w).1 ≡ p
          → IsAttempt node w (elim p.0 as (λ x. Result V × (IntentRouter × W)) [
            | err e ↦ (err e, (await_id r id, p.1))
            | ok u ↦ wait_for wiring id timeout (await_id r id, p.1)
          ])
      sent (err e, w') went =
          not_sent id (new_id w).1 e remote refl
            (ap (λ m. send node.node_id m (new_id w).1) (sym same) ∙ went)
      sent (ok u, w') went =
          arrived node id w w' (await_id r id) (arrival id timeout w')
            record {
              remote = remote;
              before = (new_id w).1;
              numbered = refl;
              went = ap (λ m. send node.node_id m (new_id w).1) (sym same) ∙ went;
            }
            refl
