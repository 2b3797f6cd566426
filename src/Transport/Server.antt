-- ===== src/Transport/Server.antt =====
-- packages/evoid-transport/evoid_transport/__init__.py: the class `UDPServer`.
-- `W` is the world outside, the socket in it; `M` is the type of dictionaries in a payload.
pub mod Clients
pub mod Pong
pub mod Steps
use Prim.Native.String.{◌++◌ as concat}
use evoid_plugins.Prelude.{
  ℕ, String, Bool, true, false, not, ◌+◌, ◌≤◌, ◌^◌, Option, none, some, List, [], ◌∷◌, nat_eq,
  string_eq, ◌==◌, if◌then◌else◌, ltb, length, drop,
}
use evoid_plugins.Py.Dict.{Dict, get, has_key, put, remove}
use evoid_plugins.Py.Exec.{
  Error, value_error, foreign, Result, ok, err, Exec, pure, raise, lift, continue, ◌>>=◌, ◌>>◌,
}
use evoid_plugins.Py.Text.{split}
use evoid_plugins.Py.Text.Whole.{Whole, natural, whole_text, whole_of}
use evoid_plugins.Transport.Bytes.{take, Bytes, from_be, slice}
use evoid_plugins.Transport.Packet.{
  Codec, Header, Parsed, parse_header, parse_intent_packet, build_pong_packet, pkt_intent, pkt_ping,
  header_size,
}
use evoid_plugins.Transport.Tracker.{AckTracker, fresh, next_sequence, update_remote, last_ack}

-- a host and a port
abbrev pub Addr : Type 0
Addr = String × Whole

pub record Client : Type 0 where
  pub client_id : ℕ
  pub player_name : String
  pub tracker : AckTracker
  pub addr : Option Addr

-- `sock` says whether there is a socket.
pub record UdpServer : Type 0 where
  pub host : String
  pub port : ℕ
  pub sock : Bool
  pub running : Bool
  pub clients : Dict String Client
  pub next_client_id : ℕ

-- The methods of the socket: `bind` and `sendto` may raise.
pub record Socket (W : Type 0) : Type 0 where
  pub bind : Addr → W → Result (Unit {0}) × W
  pub close : W → W
  pub sendto : Bytes → Addr → W → Result (Unit {0}) × W

abbrev pub Method : (W A : Type 0) → Type 0
Method W A = Exec (UdpServer × W) A

-- `UDPServer(host, port)`
unfoldable pub new_server : String → ℕ → UdpServer
new_server host port = record {
  host = host;
  port = port;
  sock = false;
  running = false;
  clients = [];
  next_client_id = 2;
}

abbrev index_error : Error
index_error = foreign 1

-- `parts = addr_str.split(":")` and `(parts[0], int(parts[1]))`
abbrev of_parts : List String → Result Addr
of_parts [] = err index_error
of_parts (host ∷ []) = err index_error
of_parts (host ∷ port ∷ rest) = elim (whole_of port) [
  | none ↦ err value_error
  | some n ↦ ok (host, n)
]

unfoldable pub parse_addr : String → Result Addr
parse_addr addr_str = of_parts (split b':' addr_str)

-- `f"{addr[0]}:{addr[1]}"`
unfoldable pub show_addr : Addr → String
show_addr (host, port) = concat host (String.◌∷◌ ":" (whole_text port))

-- `client.get("addr")`, or else what its key says
unfoldable pub addr_of : String → Client → Result Addr
addr_of addr_str client = elim client.addr [ none ↦ parse_addr addr_str | some addr ↦ ok addr ]

unfoldable pub with_tracker : AckTracker → Client → Client
with_tracker t client = record client { tracker = t }

unfoldable pub set_tracker : UdpServer → String → Client → AckTracker → UdpServer
set_tracker s addr_str client t = record s {
  clients = put s.clients addr_str (with_tracker t client);
}

unfoldable pub register_client : UdpServer → String → String → Option Addr → ℕ × UdpServer
register_client s addr_str player_name addr_tuple = (
  s.next_client_id,
  record s {
    next_client_id = s.next_client_id + 1;
    clients = put s.clients addr_str (record {
      client_id = s.next_client_id;
      player_name = player_name;
      tracker = fresh;
      addr = addr_tuple;
    });
  },
)

unfoldable pub remove_client : UdpServer → String → Option (ℕ × String) × UdpServer
remove_client s addr_str = elim (get s.clients addr_str) [
  | none ↦ (none, s)
  | some client ↦ (
    some (client.client_id, client.player_name),
    record s { clients = remove s.clients addr_str },
  )
]

-- "Update ACK tracking" of `_handle_packet`
unfoldable pub track : UdpServer → String → ℕ → UdpServer
track s addr_str sequence = elim (get s.clients addr_str) [
  | none ↦ s
  | some client ↦ set_tracker s addr_str client (update_remote client.tracker sequence)
]

module _ {W : Type 0} (socket : Socket W) where
  open socket use {bind, close, sendto}

  abbrev pub sending : Bytes → Addr → Method W (Unit {0})
  sending packet addr (s, w) = let (r, w') = sendto packet addr w in (r, (s, w'))

  -- `try: self.sock.sendto(…)` / `except Exception: pass`
  abbrev pub sending_quietly : Bytes → Addr → Method W (Unit {0})
  sending_quietly packet addr (s, w) = (ok tt, (s, (sendto packet addr w).1))

  unfoldable pub start : Method W (Unit {0})
  start (s, w) =
      let (bound, w') = bind (s.host, natural s.port) w in
      let opened : UdpServer = record s { sock = true } in
      elim bound [
        | err e ↦ (err e, (opened, w'))
        | ok u ↦ (ok u, (record opened { running = true }, w'))
      ]

  unfoldable pub stop : Method W (Unit {0})
  stop (s, w) = (ok tt, (record s { running = false; sock = false }, if s.sock then close w else w))

  -- the part of `_send_pong` below its test
  unfoldable pub answer_ping : Addr → ℕ → String → Client → Method W (Unit {0})
  answer_ping addr send_time addr_str client (s, w) =
      let (sequence, t) = next_sequence client.tracker in
      let s' = set_tracker s addr_str client t in
      elim (build_pong_packet send_time sequence (last_ack t) t.ack_bitfield) [
        | err e ↦ (err e, (s', w))
        | ok packet ↦ if s.sock then sending packet addr (s', w) else (ok tt, (s', w))
      ]

  -- `_send_pong`
  unfoldable pub send_pong : Addr → ℕ → String → Method W (Unit {0})
  send_pong addr send_time addr_str (s, w) = elim (get s.clients addr_str) [
    | none ↦ (ok tt, (s, w))
    | some client ↦ answer_ping addr send_time addr_str client (s, w)
  ]

  unfoldable pub send_each : Bytes → Dict String Client → Method W (Unit {0})
  send_each packet [] = pure tt
  send_each packet ((addr_str, client) ∷ rest) = do
    addr ← lift (addr_of addr_str client)
    sending_quietly packet addr
    send_each packet rest

  unfoldable pub send_to_all : Bytes → Method W (Unit {0})
  send_to_all packet (s, w) = if s.sock then send_each packet s.clients (s, w) else (ok tt, (s, w))

  unfoldable pub send_to_client : Bytes → String → Option Client → Method W (Unit {0})
  send_to_client packet addr_str none = pure tt
  send_to_client packet addr_str (some client) = do
    addr ← lift (addr_of addr_str client)
    sending_quietly packet addr

  unfoldable pub send_to : String → Bytes → Method W (Unit {0})
  send_to addr_str packet (s, w) =
      if s.sock
      then send_to_client packet addr_str (get s.clients addr_str) (s, w)
      else (ok tt, (s, w))

module _ {W M : Type 0} (socket : Socket W) (codec : Codec M)
    (on_intent : String → Parsed M → W → Result (Unit {0}) × W) where
  unfoldable pub take_intent : String → Option (Parsed M) → Method W (Unit {0})
  take_intent addr_str none s = (ok tt, s)
  take_intent addr_str (some packet) (s, w) =
      let (r, w') = on_intent addr_str packet w in (r, (s, w'))

  unfoldable pub handle_intent : Bytes → String → Method W (Unit {0})
  handle_intent packet addr_str = do
    parsed ← lift (parse_intent_packet codec packet)
    take_intent addr_str parsed

  unfoldable pub handle_ping : Bytes → String → Addr → Method W (Unit {0})
  handle_ping packet addr_str addr =
      if ltb (length (drop header_size packet)) 8
      then pure tt
      else send_pong socket addr (from_be (slice 0 8 (drop header_size packet))) addr_str

  unfoldable pub dispatch : Bytes → String → Addr → ℕ → Method W (Unit {0})
  dispatch packet addr_str addr packet_type =
      if packet_type == pkt_intent
      then handle_intent packet addr_str
      else if packet_type == pkt_ping
      then handle_ping packet addr_str addr
      else pure tt

  unfoldable pub handle_header : Bytes → String → Addr → Option Header → Method W (Unit {0})
  handle_header packet addr_str addr none s = (ok tt, s)
  handle_header packet addr_str addr (some header) (s, w) =
      dispatch packet addr_str addr header.packet_type (track s addr_str header.sequence, w)

  -- `_handle_packet`
  unfoldable pub handle_packet : Bytes → String → Addr → Method W (Unit {0})
  handle_packet packet addr_str addr = handle_header packet addr_str addr (parse_header packet)

  -- `receive_loop` on the datagrams that come, of which 4096 bytes are read: what a handler raises ends
  -- its round, and not the loop
  unfoldable pub receive_loop : List (Bytes × Addr) → UdpServer × W → UdpServer × W
  receive_loop [] s = s
  receive_loop ((packet, addr) ∷ rest) (s, w) =
      let next : UdpServer × W =
        receive_loop rest (handle_packet (take 4096 packet) (show_addr addr) addr (s, w)).1 in
      if s.running then next else (s, w)
