-- ===== src/Transport/Server/Pong.antt =====
-- What the class `UDPServer` of packages/evoid-transport/evoid_transport/__init__.py does with a
-- datagram.
use evoid_plugins.Prelude.{
  ℕ, ◌%◌, ◌^◌, ◌<◌, ◌≡◌, refl, ap, ◌∙◌, String, true, false, Option, none, some, ◌++◌, nat_eq,
  string_eq, ◌==◌, ==_refl, arith, drop, inl, inr, ◌⊎◌, Bool-cases, ==_iff,
}
use evoid_plugins.Py.Dict.{get}
use evoid_plugins.Py.Dict.Laws.{get-put}
use evoid_plugins.Py.Exec.{Result, ok}
use evoid_plugins.Py.Text.{has_char}
use evoid_plugins.Py.Text.Laws.{split_one}
use evoid_plugins.Py.Text.Number.{decimal, int_of-decimal, has_char-decimal, split-concat}
use evoid_plugins.Py.Text.Whole.{natural, whole_of-int_of}
use evoid_plugins.Transport.Bytes.{Bytes, be, from_be, from_be-be, slice, word}
use evoid_plugins.Transport.Packet.{
  Codec, Parsed, Header, header_bytes, header_size, pkt_ping, pkt_pong, pkt_intent, parse_header,
  build_header, build_pong_packet, timed,
}
use evoid_plugins.Transport.Packet.RoundTrip.{parse_header-header_bytes}
use evoid_plugins.Transport.Tracker.{AckTracker, next_sequence, update_remote, last_ack}
use evoid_plugins.Transport.Server.Clients.{handle_intent_keeps}
use evoid_plugins.Transport.Server.{
  Client, UdpServer, Socket, Addr, parse_addr, show_addr, track, set_tracker, with_tracker, sending,
  send_pong, answer_ping, handle_ping, dispatch, handle_header, handle_packet,
}

-- The address that is made of a client's key is the address that the key was made of, where the host
-- has no colon in it.
pub parse_addr-show_addr :
    (host : String) (port : ℕ)
    → has_char b':' host ≡ false
    → parse_addr (show_addr (host, natural port)) ≡ ok (host, natural port)
unfolding parse_addr show_addr
parse_addr-show_addr host port plain =
    rw
      (
        split-concat b':' host ":" (decimal port) plain refl,
        split_one b':' (decimal port) (has_char-decimal port),
      )
      (ground (arith, whole_of-int_of (decimal port) port (int_of-decimal port)))

module _ {W M : Type 0} (socket : Socket W) (codec : Codec M)
    (on_intent : String → Parsed M → W → Result (Unit {0}) × W) where
  abbrev run : Bytes → String → Addr → UdpServer × W → Result (Unit {0}) × (UdpServer × W)
  run packet k addr s = handle_packet socket codec on_intent packet k addr s

  handle_ping_is :
      (n sequence ack ack_bitfield : ℕ) (k : String) (addr : Addr) (s : UdpServer) (w : W)
      → n < 256 ^ 8
      → handle_ping socket codec on_intent
          (header_bytes pkt_ping sequence ack ack_bitfield ++ be 8 n)
          k
          addr
          (s, w)
        ≡ send_pong socket addr n k (s, w)
  unfolding handle_ping header_bytes be slice
  handle_ping_is n sequence ack ack_bitfield k addr s w small =
      ap (λ m. send_pong socket addr m k (s, w)) (from_be-be 8 n small)

  handle_packet_ping :
      (n sequence ack ack_bitfield : ℕ) (k : String) (addr : Addr) (s : UdpServer) (w : W)
      → n < 256 ^ 8
      → run (header_bytes pkt_ping sequence ack ack_bitfield ++ be 8 n) k addr (s, w)
        ≡ send_pong socket addr n k (track s k (sequence % word), w)
  unfolding handle_packet handle_header dispatch
  handle_packet_ping n sequence ack ack_bitfield k addr s w small =
      rw (parse_header-header_bytes pkt_ping sequence ack ack_bitfield (be 8 n))
        (handle_ping_is n sequence ack ack_bitfield k addr (track s k (sequence % word)) w small)

  pub get-track :
      (s : UdpServer) (k : String) (c : Client) (sequence : ℕ)
      → get s.clients k ≡ some c
      → get (track s k sequence).clients k
        ≡ some (with_tracker (update_remote c.tracker sequence) c)
  unfolding track set_tracker
  get-track s k c sequence h =
      rw (h, track)
        (ground (
          arith,
          get-put s.clients k k (with_tracker (update_remote c.tracker sequence) c),
          ==_refl k,
        ))

  sock-track : (s : UdpServer) (k : String) (sequence : ℕ) → (track s k sequence).sock ≡ s.sock
  unfolding track set_tracker
  sock-track s k sequence = ground arith

  -- what is sent to a client whose tracker stands at `t` before it counts the packet
  abbrev pub pong_of : AckTracker → ℕ → Bytes
  pong_of t n = header_bytes pkt_pong (next_sequence t).0 t.remote_sequence t.ack_bitfield ++ be 8 n

  build_pong_packet-is :
      (n : ℕ) (t : AckTracker)
      → n < 256 ^ 8
      → build_pong_packet n
          (next_sequence t).0
          (last_ack (next_sequence t).1)
          (next_sequence t).1.ack_bitfield
        ≡ ok (pong_of t n)
  unfolding build_pong_packet timed build_header last_ack next_sequence
  build_pong_packet-is n t small = ground arith

  answered :
      (n : ℕ) (k : String) (c : Client) (addr : Addr) (s : UdpServer) (w : W)
      → n < 256 ^ 8
      → get s.clients k ≡ some c
      → s.sock ≡ true
      → send_pong socket addr n k (s, w)
        ≡ sending socket
            (pong_of c.tracker n)
            addr
            (set_tracker s k c (next_sequence c.tracker).1, w)
  unfolding send_pong answer_ping set_tracker
  answered n k c addr s w small here open_sock =
      rw (here, send_pong)
        (rw (build_pong_packet-is n c.tracker small, answer_ping) (rw (open_sock) refl))

  ponged :
      (n sequence ack ack_bitfield : ℕ) (k : String) (c : Client) (addr : Addr) (s : UdpServer)
      (w : W)
      → n < 256 ^ 8
      → get s.clients k ≡ some c
      → s.sock ≡ true
      → run (header_bytes pkt_ping sequence ack ack_bitfield ++ be 8 n) k addr (s, w)
        ≡ sending socket (pong_of (update_remote c.tracker (sequence % word)) n) addr (
          set_tracker
              (track s k (sequence % word))
              k
              (with_tracker (update_remote c.tracker (sequence % word)) c)
              (next_sequence (update_remote c.tracker (sequence % word))).1,
          w,
        )
  unfolding with_tracker
  ponged n sequence ack ack_bitfield k c addr s w small here open_sock =
      handle_packet_ping n sequence ack ack_bitfield k addr s w small
      ∙ answered n k (with_tracker (update_remote c.tracker (sequence % word)) c) addr
          (track s k (sequence % word)) w small (get-track s k c (sequence % word) here)
          (sock-track s k (sequence % word) ∙ open_sock)

  get-set_tracker :
      (s : UdpServer) (k : String) (c : Client) (t : AckTracker)
      → get (set_tracker s k c t).clients k ≡ some (with_tracker t c)
  unfolding set_tracker
  get-set_tracker s k c t = ground (arith, get-put s.clients k k (with_tracker t c), ==_refl k)

  -- A ping from a registered client is answered, where the socket is open, by one pong to the address it
  -- came from. The pong carries the time of the ping, the client's next sequence number, and what is
  -- acknowledged once the ping itself has been counted; the client's tracker has then moved on.
  pub handle_packet_pong :
      (n sequence ack ack_bitfield : ℕ) (k : String) (c : Client) (addr : Addr) (s : UdpServer)
      (w : W)
      → n < 256 ^ 8
      → get s.clients k ≡ some c
      → s.sock ≡ true
      → let u = update_remote c.tracker (sequence % word) in
        let sent = socket.sendto (pong_of u n) addr w in
        let done = run (header_bytes pkt_ping sequence ack ack_bitfield ++ be 8 n) k addr (s, w) in
        (done.0 ≡ sent.0)
        × (done.1.1 ≡ sent.1)
        × (get done.1.0.clients k ≡ some (with_tracker (next_sequence u).1 c))
  unfolding with_tracker
  handle_packet_pong n sequence ack ack_bitfield k c addr s w small here open_sock =
      let u = update_remote c.tracker (sequence % word) in
      let is = ponged n sequence ack ack_bitfield k c addr s w small here open_sock in
      (
        ap (λ r. r.0) is,
        ap (λ r. r.1.1) is,
        ap (λ r. get r.1.0.clients k) is
            ∙ get-set_tracker (track s k (sequence % word)) k (with_tracker u c)
                (next_sequence u).1,
      )

  track_absent :
      (s : UdpServer) (k : String) (sequence : ℕ) → get s.clients k ≡ none → track s k sequence ≡ s
  unfolding track
  track_absent s k sequence absent = rw (absent, track) refl

  -- nothing happens, or the packet is an intent
  abbrev pub IdleOrIntent : Bytes → Result (Unit {0}) × (UdpServer × W) → UdpServer × W → Type 0
  IdleOrIntent packet done s =
      (done ≡ (ok tt, s))
      ⊎ ((h : Header) × (parse_header packet ≡ some h) × (h.packet_type ≡ pkt_intent))

  send_pong_absent :
      (addr : Addr) (n : ℕ) (k : String) (s : UdpServer) (w : W)
      → get s.clients k ≡ none
      → send_pong socket addr n k (s, w) ≡ (ok tt, (s, w))
  unfolding send_pong
  send_pong_absent addr n k s w absent = rw (absent, send_pong) refl

  dispatch_unknown :
      (packet : Bytes) (k : String) (addr : Addr) (h : Header) (s : UdpServer) (w : W)
      → get s.clients k ≡ none
      → parse_header packet ≡ some h
      → IdleOrIntent packet
          (dispatch socket codec on_intent packet k addr h.packet_type (s, w))
          (s, w)
  unfolding dispatch handle_ping
  dispatch_unknown packet k addr h s w absent read =
      elim (Bool-cases (h.packet_type == pkt_intent)) [
        | inl intent ↦ inr (h, read, (==_iff h.packet_type pkt_intent).0 intent)
        | inr other ↦ inl (
            rw (other, dispatch)
              (ground (
                arith,
                send_pong_absent addr (from_be (slice 0 8 (drop header_size packet))) k s w absent,
              )))
      ]

  dispatch_absent :
      (packet : Bytes) (k : String) (addr : Addr) (type : ℕ) (s : UdpServer) (w : W)
      → get s.clients k ≡ none
      → (dispatch socket codec on_intent packet k addr type (s, w)).1.0 ≡ s
  unfolding dispatch handle_ping
  dispatch_absent packet k addr type s w absent = ground (
    arith,
    handle_intent_keeps socket codec on_intent packet k s w,
    send_pong_absent addr (from_be (slice 0 8 (drop header_size packet))) k s w absent,
  )

  -- A datagram from an address that is not registered leaves the server as it is. Unless it says that it
  -- is an intent, nothing is sent, nothing raised, and nobody hears of it.
  pub handle_packet_unknown :
      (packet : Bytes) (k : String) (addr : Addr) (s : UdpServer) (w : W)
      → get s.clients k ≡ none
      → ((run packet k addr (s, w)).1.0 ≡ s) × IdleOrIntent packet (run packet k addr (s, w)) (s, w)
  unfolding handle_packet handle_header
  handle_packet_unknown packet k addr s w absent = go (parse_header packet) refl
    where
      go :
          (h : Option Header)
          → parse_header packet ≡ h
          → ((handle_header socket codec on_intent packet k addr h (s, w)).1.0 ≡ s)
            × IdleOrIntent packet
                (handle_header socket codec on_intent packet k addr h (s, w))
                (s, w)
      go none e = (refl, inl refl)
      go (some h) e = rw (track_absent s k h.sequence absent) (
        dispatch_absent packet k addr h.packet_type s w absent,
        dispatch_unknown packet k addr h s w absent e,
      )
