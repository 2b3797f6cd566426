-- ===== src/Transport/Server/Steps.antt =====
-- The runs of the class `UDPServer` of packages/evoid-transport/evoid_transport/__init__.py: its calls
-- and the datagrams that come, in any order.
use mathlib.Core.Path.{subst}
use evoid_plugins.Prelude.{
  ℕ, ◌+◌, ◌≡◌, refl, sym, String, true, Option, nat_eq, string_eq, ltb, arith, distinct, all_of,
  Option-cases, inl, inr, false, List, [], ◌∷◌, ◌++◌, contains, ==_iff,
}
use evoid_plugins.Py.Dict.{get}
use evoid_plugins.Py.Exec.{Result}
use evoid_plugins.Transport.Bytes.{Bytes}
use evoid_plugins.Transport.Packet.{Codec, Parsed}
use evoid_plugins.Transport.Server.{
  UdpServer, Socket, Addr, register_client, remove_client, new_server, handle_packet, start, stop,
}
use evoid_plugins.Transport.Server.Clients.{
  ids, HasDistinctIds, SameIds, distinct-ids-put, distinct-ids-remove, below-put, below-remove,
  below_mono, ids-handle_packet,
}

register_client-HasDistinctIds :
    (s : UdpServer) (k name : String) (addr : Option Addr)
    → HasDistinctIds s
    → HasDistinctIds (register_client s k name addr).1
unfolding register_client
register_client-HasDistinctIds s k name addr (apart, under) = (
  distinct-ids-put s.clients k _ apart under,
  below-put (s.next_client_id + 1) s.clients k _ (below_mono s.next_client_id s.clients under)
      (ground arith),
)

remove_client-HasDistinctIds :
    (s : UdpServer) (k : String) → HasDistinctIds s → HasDistinctIds (remove_client s k).1
unfolding remove_client
remove_client-HasDistinctIds s k (apart, under) = elim (Option-cases (get s.clients k)) [
  | inl absent ↦ rw (absent, remove_client) (apart, under)
  | inr (c, here) ↦
      rw (here, remove_client)
        (distinct-ids-remove s.clients k apart, below-remove s.next_client_id s.clients k under)
]

same-HasDistinctIds : (s s' : UdpServer) → SameIds s s' → HasDistinctIds s → HasDistinctIds s'
same-HasDistinctIds s s' (ids_same, next_same) (apart, under) = (
  subst (λ l. distinct l ≡ true) (sym ids_same) apart,
  subst (λ l. all_of (λ i. ltb i s'.next_client_id) l ≡ true) (sym ids_same)
      (subst (λ n. all_of (λ i. ltb i n) (ids s.clients) ≡ true) (sym next_same) under),
)

contains_next :
    (n : ℕ) (gave : List ℕ) → all_of (λ i. ltb i n) gave ≡ true → contains gave n ≡ false
unfolding all_of contains
contains_next n [] h = refl
contains_next n (i ∷ gave) h = ground (arith, contains_next n gave, ==_iff i n)

all_below_mono :
    (n : ℕ) (gave : List ℕ)
    → all_of (λ i. ltb i n) gave ≡ true
    → all_of (λ i. ltb i (n + 1)) gave ≡ true
unfolding all_of
all_below_mono n [] h = refl
all_below_mono n (i ∷ gave) h = ground (arith, all_below_mono n gave)

module _ {W M : Type 0} (socket : Socket W) (codec : Codec M)
    (on_intent : String → Parsed M → W → Result (Unit {0}) × W) where
  abbrev handled : Bytes → String → Addr → UdpServer × W → UdpServer × W
  handled packet k addr s = (handle_packet socket codec on_intent packet k addr s).1

  -- One call of a method, or one datagram, with the identifiers that it gives.
  pub data Step : UdpServer × W → List ℕ → UdpServer × W → Type 0 where
    register :
        (k name : String) (addr : Option Addr) (s : UdpServer) (w : W)
        → Step
            (s, w)
            ((register_client s k name addr).0 ∷ [])
            ((register_client s k name addr).1, w)
    leave : (k : String) (s : UdpServer) (w : W) → Step (s, w) [] ((remove_client s k).1, w)
    datagram :
        (packet : Bytes) (k : String) (addr : Addr) (s : UdpServer) (w : W)
        → Step (s, w) [] (handled packet k addr (s, w))
    open_socket : (s : UdpServer) (w : W) → Step (s, w) [] (start socket (s, w)).1
    close_socket : (s : UdpServer) (w : W) → Step (s, w) [] (stop socket (s, w)).1

  -- A run, with the identifiers that were given in it, the newest first.
  pub data Reaches : UdpServer × W → List ℕ → UdpServer × W → Type 0 where
    stay : (s : UdpServer × W) → Reaches s [] s
    then_step :
        (s s' s'' : UdpServer × W) (gave more : List ℕ)
        → Reaches s gave s'
        → Step s' more s''
        → Reaches s (more ++ gave) s''

  -- the identifiers that were given are apart, and below the next one
  abbrev AreGiven : List ℕ → UdpServer → Type 0
  AreGiven gave s = (distinct gave ≡ true) × (all_of (λ i. ltb i s.next_client_id) gave ≡ true)

  next_kept :
      (gave : List ℕ) (s s' : UdpServer)
      → s'.next_client_id ≡ s.next_client_id
      → AreGiven gave s
      → AreGiven gave s'
  next_kept gave s s' same (apart, under) =
      (apart, subst (λ n. all_of (λ i. ltb i n) gave ≡ true) (sym same) under)

  remove_client_next :
      (s : UdpServer) (k : String) → (remove_client s k).1.next_client_id ≡ s.next_client_id
  unfolding remove_client
  remove_client_next s k = ground (arith, Option-cases (get s.clients k))

  Step-AreGiven :
      (s s' : UdpServer × W) (gave more : List ℕ)
      → Step s more s'
      → AreGiven gave s.0
      → AreGiven (more ++ gave) s'.0
  unfolding start stop register_client distinct all_of
  Step-AreGiven _ _ gave _ (register k name addr s w) (apart, under) = (
    ground (arith, apart, contains_next s.next_client_id gave under),
    ground (arith, all_below_mono s.next_client_id gave under),
  )
  Step-AreGiven _ _ gave _ (leave k s w) h =
      next_kept gave s (remove_client s k).1 (remove_client_next s k) h
  Step-AreGiven _ _ gave _ (datagram packet k addr s w) h =
      next_kept gave s (handled packet k addr (s, w)).0
        (ids-handle_packet socket codec on_intent packet k addr s w).1 h
  Step-AreGiven _ _ gave _ (open_socket s w) h = ground arith
  Step-AreGiven _ _ gave _ (close_socket s w) h = h

  Step-HasDistinctIds :
      (s s' : UdpServer × W) (more : List ℕ)
      → Step s more s'
      → HasDistinctIds s.0
      → HasDistinctIds s'.0
  unfolding start stop
  Step-HasDistinctIds _ _ _ (register k name addr s w) h =
      register_client-HasDistinctIds s k name addr h
  Step-HasDistinctIds _ _ _ (leave k s w) h = remove_client-HasDistinctIds s k h
  Step-HasDistinctIds _ _ _ (datagram packet k addr s w) h =
      same-HasDistinctIds s (handled packet k addr (s, w)).0
        (ids-handle_packet socket codec on_intent packet k addr s w) h
  Step-HasDistinctIds _ _ _ (open_socket s w) h = ground arith
  Step-HasDistinctIds _ _ _ (close_socket s w) h = h

  -- However the calls and the datagrams follow one another, a server that started with no clients never
  -- has two clients with one identifier. No identifier is given twice, also where the client that had
  -- it is gone, and those that were given are below the next one.
  pub Reaches-HasDistinctIds :
      (host : String) (port : ℕ) (w : W) (gave : List ℕ) (s : UdpServer × W)
      → Reaches (new_server host port, w) gave s
      → HasDistinctIds s.0
        × (distinct gave ≡ true)
        × (all_of (λ i. ltb i s.0.next_client_id) gave ≡ true)
  unfolding new_server distinct ids all_of
  Reaches-HasDistinctIds host port w gave s run =
      let (apart, given) = kept _ _ _ run (refl, refl) in (apart, given.0, given.1)
    where
      kept :
          (s s' : UdpServer × W) (gave : List ℕ)
          → Reaches s gave s'
          → HasDistinctIds s.0
          → HasDistinctIds s'.0 × AreGiven gave s'.0
      kept _ _ _ (stay s) h = (h, (refl, refl))
      kept _ _ _ (then_step s s' s'' gave more run step) h =
          let before = kept s s' gave run h in
          (
            Step-HasDistinctIds s' s'' more step before.0,
            Step-AreGiven s' s'' gave more step before.1,
          )
