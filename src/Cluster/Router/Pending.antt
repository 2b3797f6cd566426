-- ===== src/Cluster/Router/Pending.antt =====
-- The messages that the router awaits a reply to.
use evoid_plugins.Prelude.{
  ℕ, ◌≡◌, refl, String, Bool, false, not, ◌&&◌, ◌||◌, none, some, List, [], ◌∷◌, arith, string_eq,
  ◌==◌, ==_iff, contains, keep_if, contains-keep_if,
}
use evoid_plugins.Py.Exec.{Result, ok, err}
use evoid_plugins.Cluster.Node.{ClusterNode}
use evoid_plugins.Cluster.Router.{
  call, result, Message, Wiring, IntentRouter, forget, await_id, wait_for, finish, forward_remote,
  handle_incoming,
}

keep_if-absent :
    (ids : List String) (k : String)
    → contains ids k ≡ false
    → keep_if (λ p. not (p == k)) ids ≡ ids
unfolding contains keep_if
keep_if-absent [] k h = refl
keep_if-absent (x ∷ xs) k h = ground (arith, keep_if-absent xs k)

module _ {W I V : Type 0} (wiring : Wiring W I V) where
  -- the message of a call, and what `send` makes of it
  abbrev pub call_of : IntentRouter → I → ClusterNode → W → Message I V
  call_of r intent node w = record {
    source_node = r.local_node_id;
    target_node = node.node_id;
    message_id = (wiring.new_id w).0;
    payload = call (some intent);
  }

  abbrev pub sent : IntentRouter → I → ClusterNode → W → Result (Unit {0}) × W
  sent r intent node w = wiring.send node.node_id (call_of r intent node w) (wiring.new_id w).1

  -- A call that was sent is awaited no longer once it has been answered or has timed out; what else
  -- is awaited stays so. A call that could not be sent is never taken off.
  pub contains-forward_remote :
      (intent : I) (node : ClusterNode) (timeout : ℕ) (r : IntentRouter) (w : W) (m : String)
      → contains (forward_remote wiring intent node timeout (r, w)).1.0.pending m
        ≡ (elim (sent r intent node w).0 [
          | err e ↦ (wiring.new_id w).0 == m || contains r.pending m
          | ok u ↦ not (m == (wiring.new_id w).0) && contains r.pending m
        ])
  unfolding forward_remote wait_for finish forget await_id contains
  contains-forward_remote intent node timeout r w m =
      let id = (wiring.new_id w).0 in
      ground
        (arith, contains-keep_if (λ p. not (p == id)) (id ∷ r.pending) m, ==_iff id m, ==_iff m id)

  -- A reply that nothing awaits, for example because it comes after its time, changes nothing and
  -- settles nothing.
  pub handle_incoming_late :
      (m : Message I V) (r : IntentRouter) (w : W) (success : Bool) (v : V)
      → contains r.pending m.message_id ≡ false
      → m.payload ≡ result success v
      → handle_incoming wiring m (r, w) ≡ (ok none, (r, w))
  unfolding handle_incoming forget
  handle_incoming_late m r w success v late reply =
      ground (arith, keep_if-absent r.pending m.message_id late)
