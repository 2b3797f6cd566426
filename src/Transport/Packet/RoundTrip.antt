-- ===== src/Transport/Packet/RoundTrip.antt =====
-- What the receiver reads of the packets of packages/evoid-transport/evoid_transport/__init__.py.
use mathlib.Core.Path.{subst}
use mathlib.Core.List.{append_assoc}
use evoid_plugins.Prelude.{
  ℕ, String, ◌+◌, ◌%◌, ◌<◌, ◌≡◌, refl, sym, ap, ◌∙◌, none, some, ◌++◌, nat_eq, string_eq, ltb,
  length, arith, inl, inr, Bool-cases, tests,
}
use evoid_plugins.Py.Dict.{Dict, remove}
use evoid_plugins.Py.Exec.{Result, ok, err}
use evoid_plugins.Transport.Bytes.{
  Bytes, be, from_be, from_be_onto, slice, word, from_be-be, take, take_all,
}
use evoid_plugins.Transport.Packet.{
  Header, Codec, Item, bytes_beq, header_bytes, header_of, build_header, parse_header, is_ours,
  framed, intent_fields, state_fields, with_header, build_intent_packet, parse_intent_packet,
  build_state_sync_packet, parse_state_sync_packet, parse_body, parse_typed, pkt_intent,
  pkt_state_sync, header_size,
}

abbrev pub masked : ℕ → ℕ → ℕ → ℕ → Header
masked packet_type sequence ack ack_bitfield = record {
  packet_type = packet_type;
  sequence = sequence % word;
  ack = ack % word;
  ack_bitfield = ack_bitfield % word;
}

from_be-word : (n : ℕ) → from_be (be 4 (n % word)) ≡ n % word
from_be-word n = from_be-be 4 (n % word) (omega arith)

-- The header is read from the front of a packet, whatever follows it.
pub parse_header-header_bytes :
    (packet_type sequence ack ack_bitfield : ℕ) (rest : Bytes)
    → parse_header (header_bytes packet_type sequence ack ack_bitfield ++ rest)
      ≡ some (masked packet_type sequence ack ack_bitfield)
unfolding parse_header is_ours header_of header_bytes slice be from_be from_be_onto bytes_beq
parse_header-header_bytes packet_type sequence ack ack_bitfield rest =
    ground (arith, from_be-word sequence, from_be-word ack, from_be-word ack_bitfield)

pub length-header_bytes :
    (packet_type sequence ack ack_bitfield : ℕ)
    → length (header_bytes packet_type sequence ack ack_bitfield) ≡ header_size
unfolding header_bytes be
length-header_bytes packet_type sequence ack ack_bitfield = refl

-- A header with a type that fits into a byte is built, has 18 bytes, and is read back from the front
-- of every packet that starts with it, the three other fields reduced modulo 2^32.
pub parse_header-build_header :
    (packet_type sequence ack ack_bitfield : ℕ)
    → packet_type < 256
    → (header : Bytes) × (build_header packet_type sequence ack ack_bitfield ≡ ok header)
      × (length header ≡ header_size)
      × ((rest : Bytes)
          → parse_header (header ++ rest) ≡ some (masked packet_type sequence ack ack_bitfield))
unfolding build_header
parse_header-build_header packet_type sequence ack ack_bitfield h = (
  header_bytes packet_type sequence ack ack_bitfield,
  ground arith,
  length-header_bytes packet_type sequence ack ack_bitfield,
  parse_header-header_bytes packet_type sequence ack ack_bitfield,
)

-- A packet that was built: its header and its payload were, and the length fits into 32 bits.
pub framed-eq-ok :
    (header payload : Result Bytes) (packet : Bytes)
    → framed header payload ≡ ok packet
    → (h p : Bytes) × (header ≡ ok h)
      × (payload ≡ ok p)
      × (length p < word)
      × (packet ≡ h ++ (be 4 (length p) ++ p))
unfolding framed
framed-eq-ok (err e) payload packet eq = cc
framed-eq-ok (ok h) (err e) packet eq = cc
framed-eq-ok (ok h) (ok p) packet eq = elim (Bool-cases (ltb (length p) word)) [
  | inl small ↦ (h, p, refl, refl, omega tests, ground (arith, append_assoc h (be 4 (length p)) p))
  | inr big ↦ ground arith
]

pub build_header-eq-ok :
    (packet_type sequence ack ack_bitfield : ℕ) (h : Bytes)
    → build_header packet_type sequence ack ack_bitfield ≡ ok h
    → h ≡ header_bytes packet_type sequence ack ack_bitfield
unfolding build_header
build_header-eq-ok packet_type sequence ack ack_bitfield h eq = ground arith

module _ {M : Type 0} (codec : Codec M) (packet_type sequence ack ack_bitfield : ℕ) where
  abbrev front : Bytes
  front = header_bytes packet_type sequence ack ack_bitfield

  abbrev header : Header
  header = masked packet_type sequence ack ack_bitfield

  -- the length in front of a payload, which may have been cut
  slice-length :
      (n : ℕ) (tail : Bytes)
      → n < word
      → from_be (slice header_size 4 (front ++ (be 4 n ++ tail))) ≡ n
  unfolding header_bytes slice be
  slice-length n tail h = from_be-be 4 n (omega arith)

  pub length-packet : (n : ℕ) (tail : Bytes) → length (front ++ (be 4 n ++ tail)) ≡ 22 + length tail
  unfolding header_bytes be
  length-packet n tail = omega arith

  slice-payload : (n m : ℕ) (tail : Bytes) → slice 22 n (front ++ (be 4 m ++ tail)) ≡ take n tail
  unfolding header_bytes slice be
  slice-payload n m tail = refl

  -- A payload that was cut is not read.
  pub parse_body_short :
      (n : ℕ) (tail : Bytes)
      → n < word
      → length tail < n
      → parse_body codec (front ++ (be 4 n ++ tail)) header ≡ ok none
  unfolding parse_body
  parse_body_short n tail h short = ground (arith, slice-length n tail h, length-packet n tail)

  pub parse_body_whole :
      (payload : Bytes)
      → length payload < word
      → parse_body codec (front ++ (be 4 (length payload) ++ payload)) header
        ≡ with_header header (codec.unpack payload)
  unfolding parse_body
  parse_body_whole payload h = ground (
    arith,
    slice-length (length payload) payload h,
    length-packet (length payload) payload,
    slice-payload (length payload) (length payload) payload,
    take_all payload,
  )

  pub parse_typed-front :
      (rest : Bytes)
      → parse_typed codec packet_type (front ++ rest) (parse_header (front ++ rest))
        ≡ parse_body codec (front ++ rest) header
  unfolding parse_typed
  parse_typed-front rest =
      rw (parse_header-header_bytes packet_type sequence ack ack_bitfield rest) (ground arith)

  read_whole :
      (payload : Bytes)
      → length payload < word
      → parse_typed codec packet_type
          (front ++ (be 4 (length payload) ++ payload))
          (parse_header (front ++ (be 4 (length payload) ++ payload)))
        ≡ with_header header (codec.unpack payload)
  read_whole payload h =
      parse_typed-front (be 4 (length payload) ++ payload) ∙ parse_body_whole payload h

  -- A packet of the form that `framed` gives it is read.
  pub parse_typed-framed :
      (built : Result Bytes) (packet : Bytes)
      → framed (build_header packet_type sequence ack ack_bitfield) built ≡ ok packet
      → (payload : Bytes) × (built ≡ ok payload)
        × (length payload < word)
        × (packet ≡ front ++ (be 4 (length payload) ++ payload))
        × (parse_typed codec packet_type packet (parse_header packet)
            ≡ with_header header (codec.unpack payload))
  parse_typed-framed built packet eq =
      let inverted =
        framed-eq-ok (build_header packet_type sequence ack ack_bitfield) built packet eq in
      let (h, payload, of_header, of_payload, small, shape) = inverted in
      let front_of : h ≡ front =
        build_header-eq-ok packet_type sequence ack ack_bitfield h of_header in
      let whole : packet ≡ front ++ (be 4 (length payload) ++ payload) =
        subst (λ g. packet ≡ g ++ (be 4 (length payload) ++ payload)) front_of shape in
      (
        payload,
        of_payload,
        small,
        whole,
        subst
            (λ p.
              parse_typed codec packet_type p (parse_header p)
              ≡ with_header header (codec.unpack payload))
            (sym whole) (read_whole payload small),
      )

module _ {M : Type 0} (codec : Codec M) where
  pub parse_header-build_intent_packet :
      (timestamp : ℕ) (name : String) (metadata : M) (priority sequence ack ack_bitfield : ℕ)
      (packet : Bytes)
      → build_intent_packet codec timestamp name metadata priority sequence ack ack_bitfield
        ≡ ok packet
      → parse_header packet ≡ some (masked pkt_intent sequence ack ack_bitfield)
  unfolding build_intent_packet
  parse_header-build_intent_packet timestamp name metadata priority sequence ack ack_bitfield packet
        built =
      let (payload, packed, small, shape, read) =
        parse_typed-framed codec pkt_intent sequence ack ack_bitfield _ packet built in
      ap parse_header shape
      ∙ parse_header-header_bytes pkt_intent sequence ack ack_bitfield
          (be 4 (length payload) ++ payload)

-- What the codec is relied on for: what it packs of these entries, it unpacks.
abbrev pub Faithful : {M : Type 0} → Codec M → Dict String (Item M) → Type 0
Faithful codec fields =
    (bytes : Bytes) → codec.pack fields ≡ ok bytes → codec.unpack bytes ≡ ok (some fields)

module _ {M : Type 0} (codec : Codec M) where
  -- An intent packet that was built is read as the intent that it was built of, with its header.
  pub parse_intent_packet-build_intent_packet :
      (timestamp : ℕ) (name : String) (metadata : M) (priority sequence ack ack_bitfield : ℕ)
      (packet : Bytes)
      → Faithful codec (intent_fields name metadata priority timestamp)
      → build_intent_packet codec timestamp name metadata priority sequence ack ack_bitfield
        ≡ ok packet
      → parse_intent_packet codec packet
        ≡ ok (
            some (record {
              fields = intent_fields name metadata priority timestamp;
              header = masked pkt_intent sequence ack ack_bitfield;
            }))
  unfolding build_intent_packet parse_intent_packet with_header remove
  parse_intent_packet-build_intent_packet timestamp name metadata priority sequence ack ack_bitfield
        packet faithful built =
      let (payload, packed, small, shape, read) =
        parse_typed-framed codec pkt_intent sequence ack ack_bitfield _ packet built in
      ground (arith, faithful payload)

  -- The same of a packet with a game's state.
  pub parse_state_sync_packet-build_state_sync_packet :
      (game_id : String) (state : M) (tick sequence ack ack_bitfield : ℕ) (packet : Bytes)
      → Faithful codec (state_fields game_id state tick)
      → build_state_sync_packet codec game_id state tick sequence ack ack_bitfield ≡ ok packet
      → parse_state_sync_packet codec packet
        ≡ ok (
            some (record {
              fields = state_fields game_id state tick;
              header = masked pkt_state_sync sequence ack ack_bitfield;
            }))
  unfolding build_state_sync_packet parse_state_sync_packet with_header remove
  parse_state_sync_packet-build_state_sync_packet game_id state tick sequence ack ack_bitfield
        packet faithful built =
      let (payload, packed, small, shape, read) =
        parse_typed-framed codec pkt_state_sync sequence ack ack_bitfield _ packet built in
      ground (arith, faithful payload)
