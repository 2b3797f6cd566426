-- ===== src/Cluster/Protocol.antt =====
-- packages/evoid-cluster/evoid_cluster: protocol.py, and `to_dict` and `from_dict` of node.py.
pub mod RoundTrip
use evoid_plugins.Prelude.{
  ℕ, ◌≡◌, String, Bool, true, false, Option, none, some, List, [], ◌∷◌, string_eq, ◌==◌,
  if◌then◌else◌, zero, suc, ◌+◌, ◌^◌, ltb, all_of,
}
use evoid_plugins.Py.Dict.{Dict, get, get_or, put}
use evoid_plugins.Py.Exec.{Error, value_error, key_error, type_error, Result, ok, err}
use evoid_plugins.Cluster.Node.{ClusterNode, NodeStatus}

pub data MessageType : Type 0 where
  intent result heartbeat announce withdraw error : MessageType

-- The values of the dictionaries that are sent: `None`, texts, numbers, lists of texts, and lists of
-- numbers.
pub data Field : Type 0 where
  null : Field
  str : String → Field
  number : ℕ → Field
  texts : List String → Field
  numbers : List ℕ → Field

abbrev pub Wire : Type 0
Wire = Dict String Field

-- Only the type and the payload are read when a message is decoded; the other fields are what came.
pub record ClusterMessage : Type 0 where
  pub type : MessageType
  pub source_node : Field
  pub target_node : Field
  pub message_id : Field
  pub timestamp : Field
  pub payload : List ℕ

-- msgpack packs numbers of 64 bits.
abbrev pub fits : Field → Bool
fits null = true
fits (str s) = true
fits (number n) = ltb n (2 ^ 64)
fits (texts l) = true
fits (numbers l) = all_of (λ n. ltb n (2 ^ 64)) l

-- `_encode` and `_decode` on a type of packed data: msgpack, or json, packs a dictionary whose numbers
-- fit, and gives it back.
pub record Codec (Packed : Type 0) : Type 0 where
  pub packb : Wire → Result Packed
  pub unpackb : Packed → Result Wire
  pub unpackb-packb :
      (d : Wire)
      → all_of (λ e. fits e.1) d ≡ true
      → (packed : Packed) × (packb d ≡ ok packed) × (unpackb packed ≡ ok d)

abbrev pub type_value : MessageType → String
type_value MessageType.intent = "intent"
type_value MessageType.result = "result"
type_value MessageType.heartbeat = "heartbeat"
type_value MessageType.announce = "announce"
type_value MessageType.withdraw = "withdraw"
type_value MessageType.error = "error"

-- `MessageType(s)`
unfoldable pub message_type : String → Result MessageType
message_type s =
    if s == "intent"
    then ok MessageType.intent
    else if s == "result"
    then ok MessageType.result
    else if s == "heartbeat"
    then ok MessageType.heartbeat
    else if s == "announce"
    then ok MessageType.announce
    else if s == "withdraw"
    then ok MessageType.withdraw
    else if s == "error"
    then ok MessageType.error
    else err value_error

unfoldable pub to_wire : ClusterMessage → Wire
to_wire m =
    ("type", str (type_value m.type))
    ∷ ("source_node", m.source_node)
    ∷ ("target_node", m.target_node)
    ∷ ("message_id", m.message_id)
    ∷ ("timestamp", m.timestamp)
    ∷ ("payload", numbers m.payload)
    ∷ []

-- `raw[key]`
abbrev pub required : Option Field → Result Field
required none = err key_error
required (some field) = ok field

-- `raw.get(key)`
abbrev pub or_null : Option Field → Field
or_null none = null
or_null (some field) = field

-- `MessageType(field)`
abbrev pub as_type : Field → Result MessageType
as_type (str s) = message_type s
as_type _ = err value_error

abbrev pub zeros : ℕ → List ℕ
zeros zero = []
zeros (suc n) = 0 ∷ zeros n

-- `bytes(field)`
abbrev pub as_bytes : Field → Result (List ℕ)
as_bytes (numbers l) = if all_of (λ n. ltb n 256) l then ok l else err value_error
as_bytes (number n) = ok (zeros n)
as_bytes (texts []) = ok []
as_bytes (texts (s ∷ l)) = err type_error
as_bytes (str s) = err type_error
as_bytes null = err type_error

-- Readers of the fields of a node: a missing key raises `KeyError`. A field of another type makes the
-- node that is built unusable; here it raises at once.
abbrev pub as_text : Option Field → Result String
as_text none = err key_error
as_text (some (str s)) = ok s
as_text (some _) = err type_error

abbrev pub as_number : Option Field → Result ℕ
as_number none = err key_error
as_number (some (number n)) = ok n
as_number (some _) = err type_error

abbrev pub as_texts : Option Field → Result (List String)
as_texts none = ok []
as_texts (some (texts l)) = ok l
as_texts (some _) = err type_error

abbrev pub number_or : ℕ → Option Field → Result ℕ
number_or default none = ok default
number_or default (some (number n)) = ok n
number_or default (some _) = err type_error

infixl 5 ◌>>=◌
abbrev pub ◌>>=◌ : {A B : Type 0} → Result A → (A → Result B) → Result B
ok a >>= f = f a
err e >>= f = err e

unfoldable pub of_wire : Wire → Result ClusterMessage
of_wire raw = do
  name ← required (get raw "type")
  kind ← as_type name
  source ← required (get raw "source_node")
  id ← required (get raw "message_id")
  time ← required (get raw "timestamp")
  listed ← required (get raw "payload")
  body ← as_bytes listed
  ok (record {
    type = kind;
    source_node = source;
    target_node = or_null (get raw "target_node");
    message_id = id;
    timestamp = time;
    payload = body;
  })

module _ {Packed : Type 0} (codec : Codec Packed) where
  open codec use {packb, unpackb}

  -- `ClusterMessage.encode`
  unfoldable pub encode : ClusterMessage → Result Packed
  encode m = packb (to_wire m)

  -- `ClusterMessage.decode`
  unfoldable pub decode : Packed → Result ClusterMessage
  decode data' = unpackb data' >>= of_wire

  unfoldable pub encode_announce : List String → String → List String → Result Packed
  encode_announce services node_name roles =
      packb
        (("services", texts services) ∷ ("node_name", str node_name) ∷ ("roles", texts roles) ∷ [])

abbrev pub status_value : NodeStatus → String
status_value NodeStatus.online = "online"
status_value NodeStatus.offline = "offline"
status_value NodeStatus.degraded = "degraded"

-- `NodeStatus(s)`
unfoldable pub node_status : String → Result NodeStatus
node_status s =
    if s == "online"
    then ok NodeStatus.online
    else if s == "offline"
    then ok NodeStatus.offline
    else if s == "degraded"
    then ok NodeStatus.degraded
    else err value_error

-- `ClusterNode.to_dict`
unfoldable pub to_dict : ClusterNode → Wire
to_dict n =
    ("node_id", str n.node_id)
    ∷ ("name", str n.name)
    ∷ ("host", str n.host)
    ∷ ("port", number n.port)
    ∷ ("roles", texts n.roles)
    ∷ ("services", texts n.services)
    ∷ ("status", str (status_value n.status))
    ∷ ("last_heartbeat", number n.last_heartbeat)
    ∷ []

-- `ClusterNode.from_dict`
unfoldable pub from_dict : Wire → Result ClusterNode
from_dict data' = do
  id ← as_text (get data' "node_id")
  label ← as_text (get data' "name")
  address ← as_text (get data' "host")
  port_number ← as_number (get data' "port")
  role_list ← as_texts (get data' "roles")
  service_list ← as_texts (get data' "services")
  state ← as_text (some (get_or data' "status" (str "offline")))
  current ← node_status state
  seen ← number_or 0 (get data' "last_heartbeat")
  ok (record {
    node_id = id;
    name = label;
    host = address;
    port = port_number;
    roles = role_list;
    services = service_list;
    status = current;
    last_heartbeat = seen;
  })
