-- ===== src/Transport/Port/Intents.antt =====
-- The way of a player's intent from a datagram to the message bus, for the class `EvoidUDPPort` of
-- packages/evoid-transport/evoid_transport/__init__.py.
use Prim.Native.String.{◌++◌ as concat}
use evoid_plugins.Prelude.{
  ℕ, ◌%◌, ◌≡◌, refl, ap, ◌∙◌, String, true, some, List, [], ◌∷◌, ◌++◌, nat_eq, string_eq, ◌==◌,
  if◌then◌else◌, length, ◌≤◌,
}
use evoid_plugins.Py.Dict.{get}
use evoid_plugins.Py.Dict.Laws.{get-put}
use evoid_plugins.Py.Exec.{ok}
use evoid_plugins.Py.Value.{str}
use evoid_plugins.Py.Text.Number.{decimal}
use evoid_plugins.Evoid.{Intent}
use evoid_plugins.Transport.Bytes.{Bytes, word, take_fits}
use evoid_plugins.Transport.Packet.{Codec, build_intent_packet, intent_fields}
use evoid_plugins.Transport.Packet.RoundTrip.{
  Faithful, parse_header-build_intent_packet, parse_intent_packet-build_intent_packet,
}
use evoid_plugins.Transport.Tracker.{update_remote}
use evoid_plugins.Transport.Server
use evoid_plugins.Transport.Server.Pong.{get-track}
use evoid_plugins.Transport.Server.{
  Client, UdpServer, Addr, show_addr, track, with_tracker, handle_packet, handle_header, dispatch,
  handle_intent, take_intent,
}
use evoid_plugins.Transport.Port.{
  Table, Bus, EvoidUdpPort, Publication, stamped, player_id_of, client_at, publish_intent,
  game_intent, receive_loop, run_tasks, handle_udp_intent, beside_tasks, publication, shown,
}

-- Whatever metadata a player sends, the entries that say who sent it are the port's own, and every other
-- entry is the player's.
pub get-stamped :
    (metadata : Table) (player_id game_id key : String)
    → get (stamped metadata player_id game_id) key ≡ (
        if "transport" == key
        then some (str "udp")
        else if "source" == key
        then some (str "udp_transport")
        else if "game_id" == key
        then some (str game_id)
        else if "player_id" == key
        then some (str player_id)
        else get metadata key)
unfolding stamped
get-stamped metadata player_id game_id key = simp get-put

module _ {W : Type 0} (bus : Bus W) (codec : Codec Table) where
  handle_packet_intent :
      (timestamp : ℕ) (name : String) (metadata : Table) (priority sequence ack ack_bitfield : ℕ)
      (packet : Bytes) (k : String) (addr : Addr) (s : UdpServer) (tasks : List Publication) (w : W)
      → Faithful codec (intent_fields name metadata priority timestamp)
      → build_intent_packet codec timestamp name metadata priority sequence ack ack_bitfield
        ≡ ok packet
      → handle_packet
          (beside_tasks bus.socket)
          codec
          handle_udp_intent
          packet
          k
          addr
          (s, (tasks, w))
        ≡ (
          ok tt,
          (
            track s k (sequence % word),
            (tasks ++ publication k (intent_fields name metadata priority timestamp) ∷ [], w),
          ),
        )
  unfolding handle_packet handle_header dispatch handle_intent take_intent handle_udp_intent
  handle_packet_intent timestamp name metadata priority sequence ack ack_bitfield packet k addr s
        tasks w faithful built =
      rw
        (parse_header-build_intent_packet codec timestamp name metadata priority sequence ack
          ack_bitfield packet built)
        (rw
          (parse_intent_packet-build_intent_packet codec timestamp name metadata priority sequence
            ack ack_bitfield packet faithful built)
          refl)

  -- what the bus is given for an intent of the client `c`
  abbrev pub intent_from : EvoidUdpPort → Client → String → Table → Intent
  intent_from p c name metadata = record {
    name = concat "game:" (concat p.game_id (concat ":" name));
    level = bus.standard;
    metadata = stamped metadata (decimal c.client_id) p.game_id;
  }

  player_id_known :
      (p : EvoidUdpPort) (s : UdpServer) (c : Client) (k : String)
      → p.server ≡ some s
      → get s.clients k ≡ some c
      → player_id_of (client_at p.server k) ≡ decimal c.client_id
  unfolding player_id_of
  player_id_known p s c k here known =
      ap (λ o. player_id_of (client_at o k)) here ∙ ap player_id_of known

  publish_known :
      (p : EvoidUdpPort) (s : UdpServer) (c : Client) (k name : String) (metadata : Table)
      (priority timestamp : ℕ) (w : W)
      → p.server ≡ some s
      → get s.clients k ≡ some c
      → publish_intent bus (publication k (intent_fields name metadata priority timestamp)) (p, w)
        ≡ (
          (bus.publish (intent_from p c name metadata) (concat "udp:" (decimal c.client_id)) w).0,
          (
            p,
            (bus.publish (intent_from p c name metadata) (concat "udp:" (decimal c.client_id)) w).1,
          ),
        )
  unfolding publish_intent publication game_intent shown get
  publish_known p s c k name metadata priority timestamp w here known =
      rw (player_id_known p s c k here known) refl

  -- An intent that a registered client builds, and that reaches a running port as a datagram of at
  -- most 4096 bytes, is published once its task runs: under the name of the game and of the intent, from
  -- the client's own identifier, with the client's metadata below the port's entries. The datagram
  -- itself sends nothing.
  pub run_tasks-receive_loop :
      (timestamp : ℕ) (name : String) (metadata : Table) (priority sequence ack ack_bitfield : ℕ)
      (packet : Bytes) (addr : Addr) (p : EvoidUdpPort) (s : UdpServer) (c : Client) (w : W)
      → Faithful codec (intent_fields name metadata priority timestamp)
      → build_intent_packet codec timestamp name metadata priority sequence ack ack_bitfield
        ≡ ok packet
      → length packet ≤ 4096
      → p.server ≡ some s
      → s.running ≡ true
      → get s.clients (show_addr addr) ≡ some c
      → let (p', (tasks, w')) = receive_loop bus codec ((packet, addr) ∷ []) (p, ([], w)) in
        (run_tasks bus tasks (p', w')).1
        ≡ (bus.publish (intent_from p c name metadata) (concat "udp:" (decimal c.client_id)) w).1
  unfolding receive_loop Server.receive_loop run_tasks with_tracker
  run_tasks-receive_loop timestamp name metadata priority sequence ack ack_bitfield packet addr p s
        c w faithful built short here running known =
      let k = show_addr addr in
      let call = publication k (intent_fields name metadata priority timestamp) in
      rw (here, receive_loop)
        (rw (take_fits 4096 packet short) (
          rw
            (handle_packet_intent timestamp name metadata priority sequence ack ack_bitfield packet
              k addr s [] w faithful built)
            (simp running (
              ap (λ r. r.1.1)
                (publish_known (record p { server = some (track s k (sequence % word)) })
                  (track s k (sequence % word))
                  (with_tracker (update_remote c.tracker (sequence % word)) c) k name metadata
                  priority timestamp w refl
                  (get-track (beside_tasks bus.socket) codec handle_udp_intent s k c
                    (sequence % word) known))))))
