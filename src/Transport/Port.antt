-- ===== src/Transport/Port.antt =====
-- packages/evoid-transport/evoid_transport/__init__.py: the class `EvoidUDPPort`, which joins the server
-- with the message bus of the package `evoid`. Metadata and states are dictionaries of atoms.
-- `asyncio` is a list of the tasks that have been started and have not run.
pub mod Broadcast
pub mod Intents
use Prim.Native.String.{◌++◌ as concat}
use evoid_plugins.Prelude.{
  ℕ, String, Bool, true, false, not, ◌^◌, Option, none, some, List, [], ◌∷◌, ◌++◌, nat_eq,
  string_eq, ◌==◌, if◌then◌else◌, ltb, length,
}
use evoid_plugins.Py.Dict.{Dict, get, get_or, has_key, put, remove}
use evoid_plugins.Py.Exec.{
  Error, type_error, Result, ok, err, Exec, pure, raise, lift, continue, ◌>>=◌, ◌>>◌,
}
use evoid_plugins.Py.Value.{Atom, str}
use evoid_plugins.Py.Text.Number.{decimal}
use evoid_plugins.Evoid.{Intent}
use evoid_plugins.Transport.Bytes.{Bytes, be, word}
use evoid_plugins.Transport.Packet.{
  Item, text, number, object, Codec, Parsed, build_header, build_intent_packet, build_ping_packet,
  state_fields, pkt_state_sync, struct_error,
}
use evoid_plugins.Transport.Tracker.{AckTracker, next_sequence, last_ack}
use evoid_plugins.Transport.Server
use evoid_plugins.Transport.Server.{
  UdpServer, Client, Addr, Socket, set_tracker, with_tracker, addr_of, new_server,
}

abbrev pub Table : Type 0
Table = Dict String Atom

-- What the port calls: the clock in milliseconds, `publish` of the message bus, and `loop.sock_sendto`
-- by `socket`. `standard` is `Level.STANDARD`, and `repr` the text that a dictionary is printed as.
pub record Bus (W : Type 0) : Type 0 where
  pub socket : Socket W
  pub publish : Intent → String → W → Result (Unit {0}) × W
  pub now : W → ℕ
  pub standard : ℕ
  pub repr : Table → String

-- the arguments of a call of `_publish_intent`
pub record Publication : Type 0 where
  pub intent_name : Item Table
  pub metadata : Item Table
  pub priority : Item Table
  pub addr_str : String

-- `server` is `none` where the extension in Rust does the transport.
pub record EvoidUdpPort : Type 0 where
  pub server : Option UdpServer
  pub game_id : String
  pub latency_cache : Dict String ℕ

abbrev pub Method : (W A : Type 0) → Type 0
Method W A = Exec (EvoidUdpPort × W) A

-- `EvoidUDPPort(host, port)`
unfoldable pub new_port : Bool → String → ℕ → EvoidUdpPort
new_port has_rust host port = record {
  server = if has_rust then none else some (new_server host port);
  game_id = "";
  latency_cache = [];
}

-- what `_handle_udp_intent` passes on
unfoldable pub publication : String → Dict String (Item Table) → Publication
publication addr_str fields = record {
  intent_name = get_or fields "name" (text "");
  metadata = get_or fields "metadata" (object []);
  priority = get_or fields "priority" (number 50);
  addr_str = addr_str;
}

-- `_handle_udp_intent`, on the tasks
unfoldable pub handle_udp_intent :
    {W : Type 0}
    → String
    → Parsed Table
    → List Publication × W
    → Result (Unit {0}) × (List Publication × W)
handle_udp_intent addr_str packet (tasks, w) =
    (ok tt, (tasks ++ publication addr_str packet.fields ∷ [], w))

-- `str(client["client_id"]) if client else "unknown"`
unfoldable pub player_id_of : Option Client → String
player_id_of none = "unknown"
player_id_of (some client) = decimal client.client_id

abbrev pub client_at : Option UdpServer → String → Option Client
client_at none addr_str = none
client_at (some server) addr_str = get server.clients addr_str

-- `{**metadata, "player_id": …, "game_id": …, "source": …, "transport": …}`
unfoldable pub stamped : Table → String → String → Table
stamped metadata player_id game_id =
    put
      (put (put (put metadata "player_id" (str player_id)) "game_id" (str game_id)) "source"
        (str "udp_transport"))
      "transport" (str "udp")

module _ {W : Type 0} (bus : Bus W) where
  open bus use {socket, publish, now, standard, repr}

  -- the text of a value in an f-string
  unfoldable pub shown : Item Table → String
  shown (text s) = s
  shown (number n) = decimal n
  shown (object o) = repr o

  unfoldable pub game_intent : EvoidUdpPort → Item Table → Table → String → Intent
  game_intent p intent_name metadata player_id = record {
    name = concat "game:" (concat p.game_id (concat ":" (shown intent_name)));
    level = standard;
    metadata = stamped metadata player_id p.game_id;
  }

  -- `_publish_intent`; `**` of what is no dictionary raises
  unfoldable pub publish_intent : Publication → Method W (Unit {0})
  publish_intent call (p, w) =
      let player_id = player_id_of (client_at p.server call.addr_str) in
      elim call.metadata [
        | text s ↦ (err type_error, (p, w))
        | number n ↦ (err type_error, (p, w))
        | object metadata ↦
            let sent : Result (Unit {0}) × W =
              publish (game_intent p call.intent_name metadata player_id) (concat "udp:" player_id)
                w in
            (sent.0, (p, sent.1))
      ]

  -- The tasks run, in the order in which they were started; what one raises stays in it.
  unfoldable pub run_tasks : List Publication → EvoidUdpPort × W → EvoidUdpPort × W
  run_tasks [] s = s
  run_tasks (call ∷ rest) s = run_tasks rest (publish_intent call s).1

  -- a method of the server
  abbrev pub on_server :
      EvoidUdpPort → Result (Unit {0}) × (UdpServer × W) → Result (Unit {0}) × (EvoidUdpPort × W)
  on_server p (r, (s, w)) = (r, (record p { server = some s }, w))

  unfoldable pub start : String → Method W (Unit {0})
  start game_id (p, w) =
      let named : EvoidUdpPort = record p { game_id = game_id } in
      elim p.server [
        | none ↦ (ok tt, (named, w))
        | some s ↦ on_server named (Server.start socket (s, w))
      ]

  unfoldable pub stop : Method W (Unit {0})
  stop (p, w) =
      let cleared : EvoidUdpPort = record p { latency_cache = [] } in
      elim p.server [
        | none ↦ (ok tt, (cleared, w))
        | some s ↦ on_server cleared (Server.stop socket (s, w))
      ]

  -- the bytes of the state, which every client gets
  unfoldable pub payload_bytes : Result Bytes → Result Bytes
  payload_bytes (err e) = err e
  payload_bytes (ok payload) =
      if ltb (length payload) word then ok (be 4 (length payload) ++ payload) else err struct_error

  -- A packet for one client, and its address. The tracker has moved on even where no address is made.
  unfoldable pub stamp_one : Bytes → String → Client → Result (Bytes × Addr) × Client
  stamp_one payload addr_str client =
      let (sequence, t) = next_sequence client.tracker in
      (
        elim (build_header pkt_state_sync sequence (last_ack t) t.ack_bitfield) [
          | err e ↦ err e
          | ok header ↦ elim (addr_of addr_str client) [
            | err e ↦ err e
            | ok addr ↦ ok (header ++ payload, addr)
          ]
        ],
        with_tracker t client,
      )

  -- what is sent after one more client, or what that client raised
  abbrev pub one_more :
      String × Client
      → Result (Bytes × Addr) × Client
      → Dict String Client
      → Result (List (Bytes × Addr)) × Dict String Client
      → Result (List (Bytes × Addr)) × Dict String Client
  one_more entry (err e, client) rest others = (err e, (entry.0, client) ∷ rest)
  one_more entry (ok packet, client) rest (err e, rest') = (err e, (entry.0, client) ∷ rest')
  one_more entry (ok packet, client) rest (ok packets, rest') =
      (ok (packet ∷ packets), (entry.0, client) ∷ rest')

  -- the loop of `broadcast_state_sync`, which makes the coroutines that send
  unfoldable pub stamp_all :
      Bytes → Dict String Client → Result (List (Bytes × Addr)) × Dict String Client
  stamp_all payload [] = (ok [], [])
  stamp_all payload ((addr_str, client) ∷ rest) =
      one_more (addr_str, client) (stamp_one payload addr_str client) rest (stamp_all payload rest)

  -- `asyncio.gather(*tasks, return_exceptions=True)`
  unfoldable pub gather : List (Bytes × Addr) → W → W
  gather [] w = w
  gather ((packet, addr) ∷ rest) w = gather rest (socket.sendto packet addr w).1

module _ {W : Type 0} (bus : Bus W) (codec : Codec Table) where
  open bus use {socket, now}

  abbrev pub sent_to_all :
      EvoidUdpPort
      → UdpServer
      → Result (List (Bytes × Addr)) × Dict String Client
      → W
      → Result (Unit {0}) × (EvoidUdpPort × W)
  sent_to_all p s (err e, clients) w =
      (err e, (record p { server = some (record s { clients = clients }) }, w))
  sent_to_all p s (ok packets, clients) w =
      (ok tt, (record p { server = some (record s { clients = clients }) }, gather bus packets w))

  unfoldable pub broadcast_on : UdpServer → Result Bytes → Method W (Unit {0})
  broadcast_on s (err e) (p, w) = (err e, (p, w))
  broadcast_on s (ok payload) (p, w) = sent_to_all p s (stamp_all bus payload s.clients) w

  unfoldable pub broadcast_state_sync : Table → ℕ → Method W (Unit {0})
  broadcast_state_sync state tick (p, w) = elim p.server [
    | none ↦ (ok tt, (p, w))
    | some s ↦
        let sent : Result (Unit {0}) × (EvoidUdpPort × W) =
          broadcast_on s (payload_bytes bus (codec.pack (state_fields p.game_id state tick)))
            (p, w) in
        if s.sock then sent else (ok tt, (p, w))
  ]

  -- what is left to do once the packet for a client is built
  unfoldable pub send_built : UdpServer → Client → Result Bytes → Method W (Unit {0})
  send_built s client (err e) (p, w) = (err e, (p, w))
  send_built s client (ok packet) (p, w) = elim client.addr [
    | none ↦ (ok tt, (p, w))
    | some addr ↦
        let sent : Result (Unit {0}) × W = socket.sendto packet addr w in
        if s.sock then (sent.0, (p, sent.1)) else (ok tt, (p, w))
  ]

  unfoldable pub send_to_client : UdpServer → String → Client → String → Table → Method W (Unit {0})
  send_to_client s addr_str client intent_name fields (p, w) =
      let (sequence, t) = next_sequence client.tracker in
      let s' = set_tracker s addr_str client t in
      send_built s' client
        (build_intent_packet codec (now w) intent_name fields 50 sequence (last_ack t)
          t.ack_bitfield)
        (record p { server = some s' }, w)

  unfoldable pub send_intent_to_client : String → String → Table → Method W (Unit {0})
  send_intent_to_client addr_str intent_name fields (p, w) = elim p.server [
    | none ↦ (ok tt, (p, w))
    | some s ↦ elim (get s.clients addr_str) [
      | none ↦ (ok tt, (p, w))
      | some client ↦ send_to_client s addr_str client intent_name fields (p, w)
    ]
  ]

  unfoldable pub remove_client : EvoidUdpPort → String → EvoidUdpPort
  remove_client p addr_str =
      let forgotten : EvoidUdpPort = record p { latency_cache = remove p.latency_cache addr_str } in
      elim p.server [
        | none ↦ forgotten
        | some s ↦ record forgotten { server = some (Server.remove_client s addr_str).1 }
      ]

  unfoldable pub get_latency : EvoidUdpPort → String → Option ℕ
  get_latency p addr_str = get p.latency_cache addr_str

  unfoldable pub measure_on : UdpServer → String → Client → Method W Bytes
  measure_on s addr_str client (p, w) =
      let (sequence, t) = next_sequence client.tracker in
      (
        build_ping_packet (now w) sequence (last_ack t) t.ack_bitfield,
        (record p { server = some (set_tracker s addr_str client t) }, w),
      )

  unfoldable pub measure_latency : String → Method W Bytes
  measure_latency addr_str (p, w) = elim p.server [
    | none ↦ (ok [], (p, w))
    | some s ↦ elim (get s.clients addr_str) [
      | none ↦ (ok [], (p, w))
      | some client ↦ measure_on s addr_str client (p, w)
    ]
  ]

-- the same socket, beside the tasks
abbrev pub beside_tasks : {W : Type 0} → Socket W → Socket (List Publication × W)
beside_tasks socket = record {
  bind = λ addr (tasks, w). let (r, w') = socket.bind addr w in (r, (tasks, w'));
  close = λ (tasks, w). (tasks, socket.close w);
  sendto = λ packet addr (tasks, w). let (r, w') = socket.sendto packet addr w in (r, (tasks, w'));
}

-- The port with the tasks that it has started.
abbrev pub Running : Type 0 → Type 0
Running W = EvoidUdpPort × (List Publication × W)

module _ {W : Type 0} (bus : Bus W) (codec : Codec Table) where
  open bus use {socket}

  -- `receive_loop` on the datagrams that come
  unfoldable pub receive_loop : List (Bytes × Addr) → Running W → Running W
  receive_loop arrivals (p, rest) = elim p.server [
    | none ↦ (p, rest)
    | some s ↦
        let (s', rest') =
          Server.receive_loop (beside_tasks socket) codec handle_udp_intent arrivals (s, rest) in
        (record p { server = some s' }, rest')
  ]
