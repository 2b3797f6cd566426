-- ===== src/Transport/Packet/Truncated.antt =====
-- A datagram that was cut short, for packages/evoid-transport/evoid_transport/__init__.py.
use mathlib.Core.Path.{subst}
use evoid_plugins.Prelude.{
  ℕ, zero, suc, ◌+◌, ◌-◌, ◌≤◌, ◌<◌, ◌≡◌, refl, ap, ◌∙◌, inl, inr, Option, none, [], ◌∷◌, ◌++◌, List,
  String, length, le_or_lt, sym, arith, length-append,
}
use evoid_plugins.Py.Exec.{Result, ok}
use evoid_plugins.Transport.Bytes.{Bytes, be, word, take, length-take, length-be}
use evoid_plugins.Transport.Packet.{
  Codec, Header, Parsed, header_bytes, header_size, parse_header, parse_typed, parse_body,
  parse_intent_packet, build_intent_packet, pkt_intent,
}
use evoid_plugins.Transport.Packet.RoundTrip.{
  masked, length-header_bytes, parse_typed-front, parse_body_short, parse_typed-framed,
  length-packet,
}

take-append {ℓ} :
    {A : Type ℓ} (n m : ℕ) (xs ys : List A)
    → n ≡ length xs + m
    → take n (xs ++ ys) ≡ xs ++ take m ys
take-append n m [] ys h = let e : n ≡ m = omega arith in rw e refl
take-append zero m (x ∷ xs) ys h = absurd (omega arith)
take-append (suc n) m (x ∷ xs) ys h = ap (λ l. x ∷ l) (take-append n m xs ys (omega arith))

parse_header_short : (packet : Bytes) → length packet < header_size → parse_header packet ≡ none
unfolding parse_header
parse_header_short packet h = ground arith

length-take-le {ℓ} : {A : Type ℓ} (n : ℕ) (xs : List A) → length (take n xs) ≤ n
length-take-le zero xs = omega arith
length-take-le (suc n) [] = omega arith
length-take-le (suc n) (x ∷ xs) = omega (arith, length-take-le n xs)

module _ {M : Type 0} (codec : Codec M) where
  parse_typed_short :
      (packet_type : ℕ) (packet : Bytes)
      → length packet < header_size
      → parse_typed codec packet_type packet (parse_header packet) ≡ ok none
  unfolding parse_typed
  parse_typed_short packet_type packet h = rw (parse_header_short packet h) refl

  parse_body_tiny :
      (packet : Bytes) (header : Header)
      → length packet < 22
      → parse_body codec packet header ≡ ok none
  unfolding parse_body
  parse_body_tiny packet header h = ground arith

  module _ (packet_type sequence ack ack_bitfield : ℕ) where
    abbrev front : Bytes
    front = header_bytes packet_type sequence ack ack_bitfield

    abbrev reads : Bytes → Result (Option (Parsed M))
    reads packet = parse_typed codec packet_type packet (parse_header packet)

    -- Cut in the length field, or in the payload.
    cut_behind_header :
        (payload : Bytes) (m : ℕ)
        → length payload < word
        → m < 4 + length payload
        → parse_body codec
            (front ++ take m (be 4 (length payload) ++ payload))
            (masked packet_type sequence ack ack_bitfield)
          ≡ ok none
    cut_behind_header payload m small cut = elim (le_or_lt 4 m) [
      | inl behind ↦
          let prefix = take m (be 4 (length payload) ++ payload) in
          let short : length (take (m - 4) payload) < length payload =
            omega (arith, length-take (m - 4) payload (omega arith)) in
          rw
            (take-append m (m - 4) (be 4 (length payload)) payload
              (omega (arith, length-be 4 (length payload))))
            (parse_body_short codec packet_type sequence ack ack_bitfield (length payload)
              (take (m - 4) payload) small short)
      | inr within ↦
          let tiny : length (front ++ take m (be 4 (length payload) ++ payload)) < 22 = omega (
            arith,
            length-append front (take m (be 4 (length payload) ++ payload)),
            length-header_bytes packet_type sequence ack ack_bitfield,
            length-take m (be 4 (length payload) ++ payload) (
                omega (
                  arith,
                  length-append (be 4 (length payload)) payload,
                  length-be 4 (length payload),
                )),
          ) in
          parse_body_tiny _ _ tiny
    ]

    cut_anywhere :
        (payload : Bytes) (n : ℕ)
        → length payload < word
        → n < 22 + length payload
        → reads (take n (front ++ (be 4 (length payload) ++ payload))) ≡ ok none
    cut_anywhere payload n small cut = elim (le_or_lt header_size n) [
      | inl behind ↦
          let m = n - header_size in
          let rest = take m (be 4 (length payload) ++ payload) in
          rw
            (take-append n m front (be 4 (length payload) ++ payload)
              (omega (arith, length-header_bytes packet_type sequence ack ack_bitfield)))
            (parse_typed-front codec packet_type sequence ack ack_bitfield rest
              ∙ cut_behind_header payload m small (omega arith))
      | inr within ↦
          parse_typed_short packet_type _
            (omega (arith, length-take-le n (front ++ (be 4 (length payload) ++ payload))))
    ]

  -- No proper prefix of an intent packet that was built is read as an intent: the parser answers
  -- nothing, and does not raise.
  pub parse_intent_packet_cut :
      (timestamp : ℕ) (name : String) (metadata : M) (priority sequence ack ack_bitfield : ℕ)
      (packet : Bytes) (n : ℕ)
      → build_intent_packet codec timestamp name metadata priority sequence ack ack_bitfield
        ≡ ok packet
      → n < length packet
      → parse_intent_packet codec (take n packet) ≡ ok none
  unfolding build_intent_packet parse_intent_packet
  parse_intent_packet_cut timestamp name metadata priority sequence ack ack_bitfield packet n built
        cut =
      let (payload, packed, small, shape, read) =
        parse_typed-framed codec pkt_intent sequence ack ack_bitfield _ packet built in
      let shorter : n < 22 + length payload =
        subst (λ p. n < length p → n < 22 + length payload) (sym shape)
          (λ c. omega (
            arith,
            length-packet codec pkt_intent sequence ack ack_bitfield (length payload) payload,
          ))
          cut in
      subst (λ p. parse_typed codec pkt_intent (take n p) (parse_header (take n p)) ≡ ok none)
        (sym shape) (cut_anywhere pkt_intent sequence ack ack_bitfield payload n small shorter)
