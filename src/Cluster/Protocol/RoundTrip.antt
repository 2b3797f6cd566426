-- ===== src/Cluster/Protocol/RoundTrip.antt =====
-- What is sent is what arrives.
use evoid_plugins.Prelude.{true, all_of, ltb, ◌≡◌, refl, ap, ◌∙◌, string_eq}
use evoid_plugins.Py.Dict.{get}
use evoid_plugins.Py.Exec.{ok}
use evoid_plugins.Cluster.Node.{ClusterNode, NodeStatus}
use evoid_plugins.Cluster.Protocol.{
  MessageType, type_value, message_type, ClusterMessage, to_wire, of_wire, fits, Codec, ◌>>=◌,
  encode, decode, status_value, node_status, to_dict, from_dict,
}

message_type-type_value : (t : MessageType) → message_type (type_value t) ≡ ok t
unfolding message_type
message_type-type_value MessageType.intent = refl
message_type-type_value MessageType.result = refl
message_type-type_value MessageType.heartbeat = refl
message_type-type_value MessageType.announce = refl
message_type-type_value MessageType.withdraw = refl
message_type-type_value MessageType.error = refl

of_wire-to_wire :
    (m : ClusterMessage) → all_of (λ n. ltb n 256) m.payload ≡ true → of_wire (to_wire m) ≡ ok m
unfolding of_wire to_wire get
of_wire-to_wire m bytes = rw (message_type-type_value m.type, bytes) refl

-- A message of any type, with or without a target, is encoded, and decoded to what was encoded. Its
-- payload is of bytes, and its numbers have 64 bits.
pub decode-encode :
    {Packed : Type 0} (codec : Codec Packed) (m : ClusterMessage)
    → all_of (λ n. ltb n 256) m.payload ≡ true
    → all_of (λ e. fits e.1) (to_wire m) ≡ true
    → (encode codec m >>= decode codec) ≡ ok m
unfolding decode encode
decode-encode codec m bytes small =
    let (packed, made, back) = codec.unpackb-packb (to_wire m) small in
    ap (λ r. r >>= λ p. codec.unpackb p >>= of_wire) made
    ∙ ap (λ r. r >>= of_wire) back
    ∙ of_wire-to_wire m bytes

node_status-status_value : (s : NodeStatus) → node_status (status_value s) ≡ ok s
unfolding node_status
node_status-status_value NodeStatus.online = refl
node_status-status_value NodeStatus.offline = refl
node_status-status_value NodeStatus.degraded = refl

-- A node is read back from its dictionary as it was written, its status included.
pub from_dict-to_dict : (n : ClusterNode) → from_dict (to_dict n) ≡ ok n
unfolding from_dict to_dict get
from_dict-to_dict n = rw (node_status-status_value n.status) refl
