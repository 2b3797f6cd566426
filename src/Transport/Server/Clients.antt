-- ===== src/Transport/Server/Clients.antt =====
-- The identifiers of the clients of the class `UDPServer` of
-- packages/evoid-transport/evoid_transport/__init__.py.
use evoid_plugins.Prelude.{
  ℕ, ◌+◌, ◌≡◌, refl, ◌∙◌, String, Bool, true, false, Option, none, some, List, [], ◌∷◌, nat_eq,
  string_eq, ◌==◌, ltb, arith, contains, distinct, all_of, drop, Option-cases, inl, inr,
}
use evoid_plugins.Py.Dict.{Dict, get, put, remove}
use evoid_plugins.Py.Exec.{Result, ok, err, continue, lift}
use evoid_plugins.Transport.Bytes.{Bytes, from_be, slice}
use evoid_plugins.Transport.Packet.{
  Codec, Parsed, Header, parse_header, parse_intent_packet, header_size,
}
use evoid_plugins.Transport.Tracker.{AckTracker, next_sequence, update_remote}
use evoid_plugins.Transport.Server.{
  Client, UdpServer, Socket, Addr, with_tracker, set_tracker, track, answer_ping, send_pong,
  take_intent, handle_intent, handle_ping, dispatch, handle_header, handle_packet,
}

-- the identifiers, in the order of the dictionary
unfoldable pub ids : Dict String Client → List ℕ
ids [] = []
ids ((k, c) ∷ d) = c.client_id ∷ ids d

contains-ids-put :
    (d : Dict String Client) (k : String) (c : Client) (i : ℕ)
    → contains (ids d) i ≡ false
    → (c.client_id == i) ≡ false
    → contains (ids (put d k c)) i ≡ false
unfolding ids put contains
contains-ids-put [] k c i h n = ground arith
contains-ids-put ((j, b) ∷ d) k c i h n = ground (arith, contains-ids-put d k c i)

contains-ids-remove :
    (d : Dict String Client) (k : String) (i : ℕ)
    → contains (ids d) i ≡ false
    → contains (ids (remove d k)) i ≡ false
unfolding ids remove contains
contains-ids-remove [] k i h = refl
contains-ids-remove ((j, b) ∷ d) k i h = ground (arith, contains-ids-remove d k i)

abbrev pub below : ℕ → Dict String Client → Bool
below n d = all_of (λ i. ltb i n) (ids d)

contains-fresh : (n : ℕ) (d : Dict String Client) → below n d ≡ true → contains (ids d) n ≡ false
unfolding ids all_of contains
contains-fresh n [] h = refl
contains-fresh n ((j, b) ∷ d) h = ground (arith, contains-fresh n d)

pub below_mono : (n : ℕ) (d : Dict String Client) → below n d ≡ true → below (n + 1) d ≡ true
unfolding ids all_of
below_mono n [] h = refl
below_mono n ((j, b) ∷ d) h = ground (arith, below_mono n d)

pub below-put :
    (n : ℕ) (d : Dict String Client) (k : String) (c : Client)
    → below n d ≡ true
    → ltb c.client_id n ≡ true
    → below n (put d k c) ≡ true
unfolding ids put all_of
below-put n [] k c h l = ground arith
below-put n ((j, b) ∷ d) k c h l = ground (arith, below-put n d k c)

pub below-remove :
    (n : ℕ) (d : Dict String Client) (k : String) → below n d ≡ true → below n (remove d k) ≡ true
unfolding ids remove all_of
below-remove n [] k h = refl
below-remove n ((j, b) ∷ d) k h = ground (arith, below-remove n d k)

pub distinct-ids-put :
    (d : Dict String Client) (k : String) (c : Client)
    → distinct (ids d) ≡ true
    → below c.client_id d ≡ true
    → distinct (ids (put d k c)) ≡ true
unfolding ids put distinct all_of contains
distinct-ids-put [] k c h l = refl
distinct-ids-put ((j, b) ∷ d) k c h l = ground (
  arith,
  distinct-ids-put d k c,
  contains-fresh c.client_id d,
  contains-ids-put d k c b.client_id,
)

pub distinct-ids-remove :
    (d : Dict String Client) (k : String)
    → distinct (ids d) ≡ true
    → distinct (ids (remove d k)) ≡ true
unfolding ids remove distinct
distinct-ids-remove [] k h = refl
distinct-ids-remove ((j, b) ∷ d) k h =
    ground (arith, distinct-ids-remove d k, contains-ids-remove d k b.client_id)

-- A tracker that moves on leaves the identifiers as they are.
ids-put_tracker :
    (d : Dict String Client) (k : String) (c : Client) (t : AckTracker)
    → get d k ≡ some c
    → ids (put d k (with_tracker t c)) ≡ ids d
unfolding ids put get with_tracker
ids-put_tracker [] k c t h = cc
ids-put_tracker ((j, b) ∷ d) k c t h = ground (arith, ids-put_tracker d k c t)

-- No two clients share an identifier, and the next one is above them all.
abbrev pub HasDistinctIds : UdpServer → Type 0
HasDistinctIds s =
    (distinct (ids s.clients) ≡ true)
    × (all_of (λ i. ltb i s.next_client_id) (ids s.clients) ≡ true)

-- A method that may only move trackers on.
abbrev pub SameIds : UdpServer → UdpServer → Type 0
SameIds s s' = (ids s'.clients ≡ ids s.clients) × (s'.next_client_id ≡ s.next_client_id)

ids-set_tracker :
    (s : UdpServer) (k : String) (c : Client) (t : AckTracker)
    → get s.clients k ≡ some c
    → SameIds s (set_tracker s k c t)
unfolding set_tracker
ids-set_tracker s k c t h = (ids-put_tracker s.clients k c t h, refl)

ids-track : (s : UdpServer) (k : String) (sequence : ℕ) → SameIds s (track s k sequence)
unfolding track
ids-track s k sequence = elim (Option-cases (get s.clients k)) [
  | inl absent ↦ rw (absent, track) (refl, refl)
  | inr (c, here) ↦ rw (here, track) (ids-set_tracker s k c (update_remote c.tracker sequence) here)
]

module _ {W M : Type 0} (socket : Socket W) (codec : Codec M)
    (on_intent : String → Parsed M → W → Result (Unit {0}) × W) where
  ids-answer_ping :
      (addr : Addr) (n : ℕ) (k : String) (c : Client) (s : UdpServer) (w : W)
      → get s.clients k ≡ some c
      → SameIds s (answer_ping socket addr n k c (s, w)).1.0
  unfolding answer_ping
  ids-answer_ping addr n k c s w h =
      ground (arith, ids-set_tracker s k c (next_sequence c.tracker).1)

  ids-send_pong :
      (addr : Addr) (n : ℕ) (k : String) (s : UdpServer) (w : W)
      → SameIds s (send_pong socket addr n k (s, w)).1.0
  unfolding send_pong
  ids-send_pong addr n k s w = elim (Option-cases (get s.clients k)) [
    | inl absent ↦ rw (absent, send_pong) (refl, refl)
    | inr (c, here) ↦ rw (here, send_pong) (ids-answer_ping addr n k c s w here)
  ]

  pub handle_intent_keeps :
      (packet : Bytes) (k : String) (s : UdpServer) (w : W)
      → (handle_intent socket codec on_intent packet k (s, w)).1.0 ≡ s
  unfolding handle_intent take_intent
  handle_intent_keeps packet k s w = taken (parse_intent_packet codec packet)
    where
      taken :
          (r : Result (Option (Parsed M)))
          → (continue (lift r (s, w)) (take_intent socket codec on_intent k)).1.0 ≡ s
      taken (err e) = refl
      taken (ok none) = refl
      taken (ok (some parsed)) = refl

  ids-handle_ping :
      (packet : Bytes) (k : String) (addr : Addr) (s : UdpServer) (w : W)
      → SameIds s (handle_ping socket codec on_intent packet k addr (s, w)).1.0
  unfolding handle_ping
  ids-handle_ping packet k addr s w =
      ground (arith, ids-send_pong addr (from_be (slice 0 8 (drop header_size packet))) k s w)

  pub ids-dispatch :
      (packet : Bytes) (k : String) (addr : Addr) (type : ℕ) (s : UdpServer) (w : W)
      → SameIds s (dispatch socket codec on_intent packet k addr type (s, w)).1.0
  unfolding dispatch
  ids-dispatch packet k addr type s w =
      ground (arith, handle_intent_keeps packet k s w, ids-handle_ping packet k addr s w)

  pub ids-handle_packet :
      (packet : Bytes) (k : String) (addr : Addr) (s : UdpServer) (w : W)
      → SameIds s (handle_packet socket codec on_intent packet k addr (s, w)).1.0
  unfolding handle_packet handle_header
  ids-handle_packet packet k addr s w = handled (parse_header packet)
    where
      handled :
          (h : Option Header)
          → SameIds s (handle_header socket codec on_intent packet k addr h (s, w)).1.0
      handled none = (refl, refl)
      handled (some header) =
          let tracked = ids-track s k header.sequence in
          let done = ids-dispatch packet k addr header.packet_type (track s k header.sequence) w in
          (done.0 ∙ tracked.0, done.1 ∙ tracked.1)
