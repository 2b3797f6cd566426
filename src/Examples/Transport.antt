-- ===== src/Examples/Transport.antt =====
-- Runs of packages/evoid-transport/evoid_transport/__init__.py.
use mathlib.Core.Path.{subst}
use evoid_plugins.Prelude.{
  ◌+◌, ◌<◌, ◌≤◌, ◌^◌, ◌%◌, ◌≡◌, ◌≢◌, refl, String, true, some, none, List, [], ◌∷◌, ◌++◌, string_eq,
  nat_eq, length, arith, all_of, ltb, distinct, if◌then◌else◌,
}
use evoid_plugins.Py.Dict.{get, put}
use evoid_plugins.Py.Exec.{Result, ok, err, value_error}
use evoid_plugins.Py.Value.{str, number}
use evoid_plugins.Py.Text.{split}
use evoid_plugins.Py.Text.Number.{decimal, int_of}
use evoid_plugins.Py.Text.Whole.{natural, whole_of}
use evoid_plugins.Evoid.{Intent}
use evoid_plugins.Transport.Bytes.{Bytes, be, take, word}
use evoid_plugins.Transport.Packet.{
  Codec, Parsed, header_bytes, build_header, intent_fields, state_fields, build_intent_packet,
  parse_intent_packet, framed, bytes_beq, pkt_intent, pkt_ping,
}
use evoid_plugins.Transport.Packet.RoundTrip.{
  Faithful, masked, parse_intent_packet-build_intent_packet,
}
use evoid_plugins.Transport.Packet.Truncated.{parse_intent_packet_cut}
use evoid_plugins.Transport.Tracker.{fresh, last_ack, next_sequence, update_remote}
use evoid_plugins.Transport.Tracker.Sequence.{number_of_call, number_of_call-ne}
use evoid_plugins.Transport.Tracker.Window.{receive}
use evoid_plugins.Transport.Server.{
  Client, UdpServer, Addr, Socket, new_server, register_client, remove_client, with_tracker,
  handle_packet, show_addr, parse_addr, addr_of,
}
use evoid_plugins.Transport.Server.Clients.{HasDistinctIds}
use evoid_plugins.Transport.Server.Steps.{
  Reaches, stay, then_step, register, leave, Reaches-HasDistinctIds,
}
use evoid_plugins.Transport.Server.Pong.{
  handle_packet_pong, handle_packet_unknown, IdleOrIntent, pong_of,
}
use evoid_plugins.Transport.Port.{
  Table, Bus, EvoidUdpPort, broadcast_state_sync, broadcast_on, payload_bytes, stamp_all, stamp_one,
  receive_loop, run_tasks, gather,
}
use evoid_plugins.Transport.Port.Broadcast.{
  broadcast_state_sync_lem, broadcast_state_sync_raised, has_addr, all_advanced, stamps,
}
use evoid_plugins.Transport.Port.Intents.{run_tasks-receive_loop, intent_from}

-- what a player sends, and what the game tells the players
abbrev sent : Table
sent = ("card", str "ace") ∷ ("player_id", str "9") ∷ []

abbrev board : Table
board = ("turn", number 4) ∷ []

-- a codec for these two dictionaries
abbrev codec : Codec Table
codec = record {
  pack = λ fields. if ltb (length fields) 4 then ok (7 ∷ 7 ∷ []) else ok (1 ∷ 2 ∷ 3 ∷ []);
  unpack = λ bytes.
      if bytes_beq bytes (7 ∷ 7 ∷ [])
      then ok (some (state_fields "chess" board 8))
      else if bytes_beq bytes (1 ∷ 2 ∷ 3 ∷ [])
      then ok (some (intent_fields "play" sent 50 1000))
      else err value_error;
}

-- The world lists what was sent and what was published.
abbrev World : Type 0
World = List (Bytes × Addr) × List (Intent × String)

abbrev socket : Socket World
socket = record {
  bind = λ addr w. (ok tt, w);
  close = λ w. w;
  sendto =
      λ packet addr (datagrams, published). (ok tt, (datagrams ++ (packet, addr) ∷ [], published));
}

abbrev bus : Bus World
bus = record {
  socket = socket;
  publish = λ intent source (datagrams, published).
      (ok tt, (datagrams, published ++ (intent, source) ∷ []));
  now = λ w. 1000;
  standard = 1;
  repr = λ table. "{}";
}

abbrev calm : World
calm = ([], [])

abbrev home : Addr
home = ("10.0.0.5", natural 4242)

abbrev player : Client
player = record {
  client_id = 2;
  player_name = "ada";
  tracker = record { local_sequence = 6; remote_sequence = 3; ack_bitfield = 5 };
  addr = some home;
}

abbrev server : UdpServer
server = record {
  host = "0.0.0.0";
  port = 9000;
  sock = true;
  running = true;
  clients = ("10.0.0.5:4242", player) ∷ [];
  next_client_id = 3;
}

abbrev port : EvoidUdpPort
port = record { server = some server; game_id = "chess"; latency_cache = [] }

abbrev packet_of : Result Bytes → Bytes
packet_of (err e) = []
packet_of (ok packet) = packet

abbrev play : Bytes
play = packet_of (build_intent_packet codec 1000 "play" sent 50 4 6 1)

play_built : build_intent_packet codec 1000 "play" sent 50 4 6 1 ≡ ok play
unfolding build_intent_packet framed build_header header_bytes be
play_built = refl

codec_intent : Faithful codec (intent_fields "play" sent 50 1000)
unfolding bytes_beq
codec_intent bytes h =
    let e : (1 ∷ 2 ∷ 3 ∷ []) ≡ bytes = cc in
    subst (λ b. codec.unpack b ≡ ok (some (intent_fields "play" sent 50 1000))) e refl

shown_home : show_addr home ≡ "10.0.0.5:4242"
unfolding show_addr decimal
shown_home = refl

known : get server.clients (show_addr home) ≡ some player
unfolding get show_addr decimal
known = refl

play_short : length play ≤ 4096
unfolding build_intent_packet framed build_header header_bytes be
play_short = omega arith

run_tasks-receive_loop_example :
    let (p', (tasks, w')) = receive_loop bus codec ((play, home) ∷ []) (port, ([], calm)) in
    (run_tasks bus tasks (p', w')).1
    ≡ ([], (intent_from bus codec port player "play" sent, "udp:2") ∷ [])
unfolding decimal
run_tasks-receive_loop_example =
    run_tasks-receive_loop bus codec 1000 "play" sent 50 4 6 1 play home port server player calm
      codec_intent play_built play_short refl refl known

parse_intent_packet-build_intent_packet_example :
    parse_intent_packet codec play
    ≡ ok (
        some
          (record { fields = intent_fields "play" sent 50 1000; header = masked pkt_intent 4 6 1 }))
parse_intent_packet-build_intent_packet_example =
    parse_intent_packet-build_intent_packet codec 1000 "play" sent 50 4 6 1 play codec_intent
      play_built

play_is_longer : 23 < length play
unfolding build_intent_packet framed build_header header_bytes be
play_is_longer = omega arith

parse_intent_packet_cut_example : parse_intent_packet codec (take 23 play) ≡ ok none
parse_intent_packet_cut_example =
    parse_intent_packet_cut codec 1000 "play" sent 50 4 6 1 play 23 play_built play_is_longer

-- 7, 4 and 3 are bits 0, 3 and 4.
window : (receive (3 ∷ 4 ∷ 7 ∷ []) fresh).ack_bitfield ≡ 25
unfolding receive update_remote
window = refl

-- The field outgrows its 32 bits.
wide : (receive (3 ∷ 63 ∷ []) fresh).ack_bitfield ≡ 2 ^ 60 + 1
unfolding receive update_remote
wide = refl

number_of_call-ne_example : number_of_call 3 fresh ≢ number_of_call 8 fresh
number_of_call-ne_example = number_of_call-ne fresh 3 5 (omega arith) (omega arith) (omega arith)

abbrev ignore : String → Parsed Table → World → Result (Unit {0}) × World
ignore addr_str packet w = (ok tt, w)

abbrev opened : UdpServer
opened = new_server "0.0.0.0" 9000

abbrev one_player : UdpServer
one_player = (register_client opened "10.0.0.5:4242" "ada" (some home)).1

abbrev two_players : UdpServer
two_players = (register_client one_player "10.0.0.6:4242" "bob" none).1

joined :
    Reaches socket codec ignore
      (opened, calm)
      ((register_client one_player "10.0.0.6:4242" "bob" none).0
        ∷ (register_client opened "10.0.0.5:4242" "ada" (some home)).0
        ∷ [])
      ((remove_client two_players "10.0.0.5:4242").1, calm)
joined =
    then_step _ _ _ _ _
      (then_step _ _ _ _ _
        (then_step _ _ _ _ _ (stay _) (register "10.0.0.5:4242" "ada" (some home) opened calm))
        (register "10.0.0.6:4242" "bob" none one_player calm))
      (leave "10.0.0.5:4242" two_players calm)

Reaches-HasDistinctIds_example :
    let gave =
      (register_client one_player "10.0.0.6:4242" "bob" none).0
      ∷ (register_client opened "10.0.0.5:4242" "ada" (some home)).0
      ∷ [] in
    let s = (remove_client two_players "10.0.0.5:4242").1 in
    HasDistinctIds s × (distinct gave ≡ true) × (all_of (λ i. ltb i s.next_client_id) gave ≡ true)
Reaches-HasDistinctIds_example =
    Reaches-HasDistinctIds socket codec ignore "0.0.0.0" 9000 calm _
      ((remove_client two_players "10.0.0.5:4242").1, calm) joined

abbrev ping : Bytes
ping = header_bytes pkt_ping 4 0 0 ++ be 8 1234

player_known : get server.clients "10.0.0.5:4242" ≡ some player
unfolding get
player_known = refl

handle_packet_pong_example :
    let u = update_remote player.tracker (4 % word) in
    let sent = socket.sendto (pong_of socket codec ignore u 1234) home calm in
    let done = handle_packet socket codec ignore ping "10.0.0.5:4242" home (server, calm) in
    (done.0 ≡ sent.0)
    × (done.1.1 ≡ sent.1)
    × (get done.1.0.clients "10.0.0.5:4242" ≡ some (with_tracker (next_sequence u).1 player))
handle_packet_pong_example =
    handle_packet_pong socket codec ignore 1234 4 0 0 "10.0.0.5:4242" player home server calm
      (omega arith) player_known refl

stranger : get server.clients "6.6.6.6:1" ≡ none
unfolding get
stranger = refl

handle_packet_unknown_example :
    ((handle_packet socket codec ignore ping "6.6.6.6:1" ("6.6.6.6", natural 1) (server, calm)).1.0
      ≡ server)
    × IdleOrIntent socket codec ignore ping
        (handle_packet socket codec ignore ping "6.6.6.6:1" ("6.6.6.6", natural 1) (server, calm))
        (server, calm)
handle_packet_unknown_example =
    handle_packet_unknown socket codec ignore ping "6.6.6.6:1" ("6.6.6.6", natural 1) server calm
      stranger

addresses : all_of has_addr server.clients ≡ true
unfolding all_of
addresses = refl

broadcast_state_sync_lem_example : broadcast_state_sync bus codec board 8 (port, calm) ≡ (
  ok tt,
  (
    record port { server = some (record server { clients = all_advanced server.clients }) },
    gather bus (stamps (be 4 2 ++ 7 ∷ 7 ∷ []) server.clients) calm,
  ),
)
broadcast_state_sync_lem_example =
    broadcast_state_sync_lem bus codec board 8 port server (7 ∷ 7 ∷ []) calm refl refl addresses
      refl (omega arith)

-- A client that was registered without an address, under a key of IPv6.
abbrev six : UdpServer
six = (register_client server "::1:9000" "eve" none).1

abbrev six_port : EvoidUdpPort
six_port = record { server = some six; game_id = "chess"; latency_cache = [] }

no_addr : (broadcast_state_sync bus codec board 8 (six_port, calm)).0 ≡ err value_error
unfolding broadcast_state_sync broadcast_on payload_bytes stamp_all stamp_one register_client put
    addr_of parse_addr split whole_of int_of build_header header_bytes next_sequence last_ack
no_addr = refl

broadcast_state_sync_raised_example :
    (broadcast_state_sync bus codec board 8 (six_port, calm)).1.1 ≡ calm
broadcast_state_sync_raised_example =
    broadcast_state_sync_raised bus codec board 8 six_port calm value_error no_addr
