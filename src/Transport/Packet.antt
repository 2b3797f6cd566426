-- ===== src/Transport/Packet.antt =====
-- packages/evoid-transport/evoid_transport/__init__.py: the constants of the protocol, and what
-- builds and reads its packets. `struct.error` is a `foreign` exception.
pub mod RoundTrip
pub mod Truncated
use evoid_plugins.Prelude.{
  ℕ, String, Bool, true, false, not, ◌&&◌, ◌||◌, ◌+◌, ◌%◌, ◌^◌, Option, none, some, List, [], ◌∷◌,
  ◌++◌, nat_eq, string_eq, ◌==◌, if◌then◌else◌, ltb, length, drop,
}
use evoid_plugins.Py.Dict.{Dict, remove}
use evoid_plugins.Py.Exec.{Error, type_error, foreign, Result, ok, err}
use evoid_plugins.Transport.Bytes.{Bytes, be, from_be, slice, word}

-- `b"EVOI"`
abbrev pub magic : Bytes
magic = 69 ∷ 86 ∷ 79 ∷ 73 ∷ []

abbrev pub protocol_version : ℕ
protocol_version = 1

abbrev pub header_size : ℕ
header_size = 18

abbrev pub pkt_intent : ℕ
pkt_intent = 0x01

abbrev pub pkt_state_sync : ℕ
pkt_state_sync = 0x02

abbrev pub pkt_ack : ℕ
pkt_ack = 0x03

abbrev pub pkt_ping : ℕ
pkt_ping = 0x05

abbrev pub pkt_pong : ℕ
pkt_pong = 0x06

abbrev pkt_connected : ℕ
pkt_connected = 0x04

abbrev pkt_player_joined : ℕ
pkt_player_joined = 0x07

abbrev pkt_player_left : ℕ
pkt_player_left = 0x08

abbrev pub struct_error : Error
struct_error = foreign 0

pub record Header : Type 0 where
  pub packet_type : ℕ
  pub sequence : ℕ
  pub ack : ℕ
  pub ack_bitfield : ℕ

unfoldable pub bytes_beq : Bytes → Bytes → Bool
bytes_beq [] [] = true
bytes_beq (x ∷ xs) (y ∷ ys) = x == y && bytes_beq xs ys
bytes_beq _ _ = false

-- what `struct.pack(">4sBBIII", …)` makes of fields that fit
unfoldable pub header_bytes : ℕ → ℕ → ℕ → ℕ → Bytes
header_bytes packet_type sequence ack ack_bitfield =
    magic
    ++ protocol_version ∷ packet_type ∷ be 4 (sequence % word)
    ++ be 4 (ack % word)
    ++ be 4 (ack_bitfield % word)

unfoldable pub build_header : ℕ → ℕ → ℕ → ℕ → Result Bytes
build_header packet_type sequence ack ack_bitfield =
    if ltb packet_type 256
    then ok (header_bytes packet_type sequence ack ack_bitfield)
    else err struct_error

-- `struct.unpack_from(">4sBBIII", data)` below its first two fields
unfoldable pub header_of : Bytes → Header
header_of packet = record {
  packet_type = from_be (slice 5 1 packet);
  sequence = from_be (slice 6 4 packet);
  ack = from_be (slice 10 4 packet);
  ack_bitfield = from_be (slice 14 4 packet);
}

-- the magic number and the version
unfoldable pub is_ours : Bytes → Bool
is_ours packet =
    bytes_beq (slice 0 4 packet) magic && from_be (slice 4 1 packet) == protocol_version

unfoldable pub parse_header : Bytes → Option Header
parse_header packet =
    if ltb (length packet) header_size
    then none
    else if is_ours packet
    then some (header_of packet)
    else none

-- What a payload holds: `M` is the type of the dictionaries that stand for metadata and states.
pub data Item (M : Type 0) : Type 0 where
  text : String → Item M
  number : ℕ → Item M
  object : M → Item M

-- `_pack` and `_unpack`. The first raises on what it cannot serialise, the second on bytes it cannot
-- read; what it reads need not be a dictionary (`none`).
pub record Codec (M : Type 0) : Type 0 where
  pub pack : Dict String (Item M) → Result Bytes
  pub unpack : Bytes → Result (Option (Dict String (Item M)))

-- A packet that was read: the entry `_header` stands apart from the others.
pub record Parsed (M : Type 0) : Type 0 where
  pub fields : Dict String (Item M)
  pub header : Header

-- `header + struct.pack(">I", len(payload)) + payload`
unfoldable pub framed : Result Bytes → Result Bytes → Result Bytes
framed (err e) payload = err e
framed (ok header) (err e) = err e
framed (ok header) (ok payload) =
    if ltb (length payload) word
    then ok (header ++ be 4 (length payload) ++ payload)
    else err struct_error

module _ {M : Type 0} where
  abbrev pub intent_fields : String → M → ℕ → ℕ → Dict String (Item M)
  intent_fields name metadata priority timestamp =
      ("name", text name)
      ∷ ("metadata", object metadata)
      ∷ ("priority", number priority)
      ∷ ("timestamp", number timestamp)
      ∷ []

  abbrev pub state_fields : String → M → ℕ → Dict String (Item M)
  state_fields game_id state tick =
      ("game_id", text game_id) ∷ ("state", object state) ∷ ("tick", number tick) ∷ []

  -- `payload["_header"] = header`
  unfoldable pub with_header :
      Header → Result (Option (Dict String (Item M))) → Result (Option (Parsed M))
  with_header header (err e) = err e
  with_header header (ok none) = err type_error
  with_header header (ok (some payload)) =
      ok (some (record { fields = remove payload "_header"; header = header }))

module _ {M : Type 0} (codec : Codec M) where
  open codec use {pack, unpack}

  -- `timestamp` is `int(time.time() * 1000)`
  unfoldable pub build_intent_packet : ℕ → String → M → ℕ → ℕ → ℕ → ℕ → Result Bytes
  build_intent_packet timestamp name metadata priority sequence ack ack_bitfield =
      framed (build_header pkt_intent sequence ack ack_bitfield)
        (pack (intent_fields name metadata priority timestamp))

  unfoldable pub build_state_sync_packet : String → M → ℕ → ℕ → ℕ → ℕ → Result Bytes
  build_state_sync_packet game_id state tick sequence ack ack_bitfield =
      framed (build_header pkt_state_sync sequence ack ack_bitfield)
        (pack (state_fields game_id state tick))

  -- the part of `parse_intent_packet` and `parse_state_sync_packet` below their test of the type
  unfoldable pub parse_body : Bytes → Header → Result (Option (Parsed M))
  parse_body packet header =
      let payload_len = from_be (slice header_size 4 packet) in
      if ltb (length packet) (header_size + 4)
      then ok none
      else if ltb (length packet) (header_size + 4 + payload_len)
      then ok none
      else with_header header (unpack (slice (header_size + 4) payload_len packet))

  unfoldable pub parse_typed : ℕ → Bytes → Option Header → Result (Option (Parsed M))
  parse_typed packet_type packet none = ok none
  parse_typed packet_type packet (some header) =
      let body = parse_body packet header in
      if header.packet_type == packet_type then body else ok none

  unfoldable pub parse_intent_packet : Bytes → Result (Option (Parsed M))
  parse_intent_packet packet = parse_typed pkt_intent packet (parse_header packet)

  unfoldable pub parse_state_sync_packet : Bytes → Result (Option (Parsed M))
  parse_state_sync_packet packet = parse_typed pkt_state_sync packet (parse_header packet)

unfoldable pub build_ack_packet : ℕ → ℕ → ℕ → Result Bytes
build_ack_packet ack ack_bitfield sequence = build_header pkt_ack sequence ack ack_bitfield

-- `header + struct.pack(">Q", send_time)`
unfoldable pub timed : Result Bytes → ℕ → Result Bytes
timed (err e) send_time = err e
timed (ok header) send_time =
    if ltb send_time (256 ^ 8) then ok (header ++ be 8 send_time) else err struct_error

-- `send_time` is `int(time.time() * 1000)`
unfoldable pub build_ping_packet : ℕ → ℕ → ℕ → ℕ → Result Bytes
build_ping_packet send_time sequence ack ack_bitfield =
    timed (build_header pkt_ping sequence ack ack_bitfield) send_time

unfoldable pub build_pong_packet : ℕ → ℕ → ℕ → ℕ → Result Bytes
build_pong_packet send_time sequence ack ack_bitfield =
    timed (build_header pkt_pong sequence ack ack_bitfield) send_time
