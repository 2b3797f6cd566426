-- ===== src/Transport/Port/Broadcast.antt =====
-- What `broadcast_state_sync` of the class `EvoidUDPPort` of
-- packages/evoid-transport/evoid_transport/__init__.py sends.
use mathlib.Core.List.{append_assoc}
use evoid_plugins.Prelude.{
  ℕ, ◌<◌, ◌≡◌, refl, String, Bool, true, false, Option, none, some, List, [], ◌∷◌, ◌++◌, nat_eq,
  string_eq, arith, length, all_of, Option-cases, inl, inr,
}
use evoid_plugins.Py.Dict.{Dict}
use evoid_plugins.Py.Exec.{Result, ok, err, Error}
use evoid_plugins.Py.Text.Whole.{natural}
use evoid_plugins.Transport.Bytes.{Bytes, be, word}
use evoid_plugins.Transport.Packet.{
  Codec, header_bytes, build_header, framed, build_state_sync_packet, parse_state_sync_packet,
  state_fields, pkt_state_sync,
}
use evoid_plugins.Transport.Packet.RoundTrip.{
  Faithful, masked, parse_state_sync_packet-build_state_sync_packet,
}
use evoid_plugins.Transport.Tracker.{next_sequence, last_ack}
use evoid_plugins.Transport.Server.{Client, UdpServer, Addr, addr_of, with_tracker}
use evoid_plugins.Transport.Port.{
  Table, Bus, EvoidUdpPort, payload_bytes, stamp_one, stamp_all, gather, broadcast_on,
  broadcast_state_sync, sent_to_all,
}

-- A client with an address, as one that came over the socket has it.
abbrev pub has_addr : String × Client → Bool
has_addr (k, c) = elim c.addr [ none ↦ false | some addr ↦ true ]

abbrev addr_or : Option Addr → Addr
addr_or none = ("", natural 0)
addr_or (some addr) = addr

-- the packet for a client, and the client afterwards
abbrev pub stamp : Bytes → Client → Bytes
stamp payload c =
    header_bytes pkt_state_sync c.tracker.local_sequence c.tracker.remote_sequence
      c.tracker.ack_bitfield
    ++ payload

abbrev pub advanced : Client → Client
advanced c = with_tracker (next_sequence c.tracker).1 c

unfoldable pub stamps : Bytes → Dict String Client → List (Bytes × Addr)
stamps payload [] = []
stamps payload ((k, c) ∷ rest) = (stamp payload c, addr_or c.addr) ∷ stamps payload rest

unfoldable pub all_advanced : Dict String Client → Dict String Client
all_advanced [] = []
all_advanced ((k, c) ∷ rest) = (k, advanced c) ∷ all_advanced rest

module _ {W : Type 0} (bus : Bus W) (codec : Codec Table) where
  stamp_one_lem :
      (payload : Bytes) (k : String) (c : Client)
      → has_addr (k, c) ≡ true
      → stamp_one bus payload k c ≡ (ok (stamp payload c, addr_or c.addr), advanced c)
  unfolding stamp_one addr_of build_header next_sequence last_ack
  stamp_one_lem payload k c h = ground arith

  stamp_all_lem :
      (payload : Bytes) (clients : Dict String Client)
      → all_of has_addr clients ≡ true
      → stamp_all bus payload clients ≡ (ok (stamps payload clients), all_advanced clients)
  unfolding stamp_all stamps all_advanced all_of
  stamp_all_lem payload [] h = refl
  stamp_all_lem payload ((k, c) ∷ rest) h =
      rw (stamp_one_lem payload k c (ground arith), stamp_all_lem payload rest (ground arith)) refl

  sent_to_all_raised :
      (p : EvoidUdpPort) (s : UdpServer) (r : Result (List (Bytes × Addr)) × Dict String Client)
      (w : W) (e : Error)
      → (sent_to_all bus codec p s r w).0 ≡ err e
      → (sent_to_all bus codec p s r w).1.1 ≡ w
  sent_to_all_raised p s (err d, clients) w e raised = refl
  sent_to_all_raised p s (ok packets, clients) w e raised = cc

  broadcast_on_raised :
      (s : UdpServer) (payload : Result Bytes) (p : EvoidUdpPort) (w : W) (e : Error)
      → (broadcast_on bus codec s payload (p, w)).0 ≡ err e
      → (broadcast_on bus codec s payload (p, w)).1.1 ≡ w
  unfolding broadcast_on
  broadcast_on_raised s (err d) p w e raised = refl
  broadcast_on_raised s (ok payload) p w e raised =
      sent_to_all_raised p s (stamp_all bus payload s.clients) w e raised

  -- A broadcast that raises has sent nothing to anyone.
  pub broadcast_state_sync_raised :
      (state : Table) (tick : ℕ) (p : EvoidUdpPort) (w : W) (e : Error)
      → (broadcast_state_sync bus codec state tick (p, w)).0 ≡ err e
      → (broadcast_state_sync bus codec state tick (p, w)).1.1 ≡ w
  unfolding broadcast_state_sync
  broadcast_state_sync_raised state tick p w e raised = elim (Option-cases p.server) [
    | inl rust ↦ ground arith
    | inr (s, here) ↦
        let payload = payload_bytes bus (codec.pack (state_fields p.game_id state tick)) in
        ground (arith, here, broadcast_on_raised s payload p w e)
  ]

  payload_bytes_lem :
      (payload : Bytes)
      → length payload < word
      → payload_bytes bus (ok payload) ≡ ok (be 4 (length payload) ++ payload)
  unfolding payload_bytes
  payload_bytes_lem payload small = ground arith

  -- Where the socket is open, every client has an address, and the state can be packed, a broadcast
  -- sends each client one packet, in the order of their registration, with the client's own sequence
  -- number and acknowledgements; each client's tracker moves on by one, and nothing is raised.
  pub broadcast_state_sync_lem :
      (state : Table) (tick : ℕ) (p : EvoidUdpPort) (s : UdpServer) (payload : Bytes) (w : W)
      → p.server ≡ some s
      → s.sock ≡ true
      → all_of has_addr s.clients ≡ true
      → codec.pack (state_fields p.game_id state tick) ≡ ok payload
      → length payload < word
      → broadcast_state_sync bus codec state tick (p, w) ≡ (
        ok tt,
        (
          record p { server = some (record s { clients = all_advanced s.clients }) },
          gather bus (stamps (be 4 (length payload) ++ payload) s.clients) w,
        ),
      )
  unfolding broadcast_state_sync broadcast_on
  broadcast_state_sync_lem state tick p s payload w here open_sock addresses packed small =
      rw (here, broadcast_state_sync)
        (rw (open_sock, packed)
          (rw
            (
              payload_bytes_lem payload small,
              stamp_all_lem (be 4 (length payload) ++ payload) s.clients addresses,
            )
            refl))

  build_state_sync_packet-stamp :
      (state : Table) (tick : ℕ) (game_id : String) (payload : Bytes) (c : Client)
      → codec.pack (state_fields game_id state tick) ≡ ok payload
      → length payload < word
      → build_state_sync_packet codec game_id state tick c.tracker.local_sequence
          c.tracker.remote_sequence c.tracker.ack_bitfield
        ≡ ok (stamp (be 4 (length payload) ++ payload) c)
  unfolding build_state_sync_packet framed build_header
  build_state_sync_packet-stamp state tick game_id payload c packed small = ground (
    arith,
    packed,
    append_assoc
        (header_bytes pkt_state_sync c.tracker.local_sequence c.tracker.remote_sequence
          c.tracker.ack_bitfield)
        (be 4 (length payload)) payload,
  )

  -- What a client reads of its packet of a broadcast: the state that was sent, with the sequence number
  -- and the acknowledgements of its tracker.
  pub parse_state_sync_packet-stamp :
      (state : Table) (tick : ℕ) (game_id : String) (payload : Bytes) (c : Client)
      → Faithful codec (state_fields game_id state tick)
      → codec.pack (state_fields game_id state tick) ≡ ok payload
      → length payload < word
      → parse_state_sync_packet codec (stamp (be 4 (length payload) ++ payload) c)
        ≡ ok (
            some (record {
              fields = state_fields game_id state tick;
              header =
                  masked pkt_state_sync c.tracker.local_sequence c.tracker.remote_sequence
                    c.tracker.ack_bitfield;
            }))
  parse_state_sync_packet-stamp state tick game_id payload c faithful packed small =
      parse_state_sync_packet-build_state_sync_packet codec game_id state tick
        c.tracker.local_sequence c.tracker.remote_sequence c.tracker.ack_bitfield
        (stamp (be 4 (length payload) ++ payload) c) faithful
        (build_state_sync_packet-stamp state tick game_id payload c packed small)
