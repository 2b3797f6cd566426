-- ===== src/Transport/Tracker/Window.antt =====
-- What the bits of a tracker of packages/evoid-transport/evoid_transport/__init__.py say.
use evoid_plugins.Prelude.{
  ℕ, zero, suc, ◌+◌, ◌-◌, ◌*◌, ◌/◌, ◌%◌, ◌^◌, ◌≤◌, ◌<◌, ◌≡◌, Bool, List, [], ◌∷◌, nat_eq, ◌==◌,
  contains, arith, ◌||◌,
}
use evoid_plugins.Transport.Bytes.{word}
use evoid_plugins.Transport.Tracker.{AckTracker, delta, update_remote}

-- bit `k` of a number
unfoldable pub bit : ℕ → ℕ → Bool
bit n zero = n % 2 == 1
bit n (suc k) = bit (n / 2) k

-- the tracker after packets with these sequence numbers
unfoldable pub receive : List ℕ → AckTracker → AckTracker
receive [] t = t
receive (s ∷ rest) t = receive rest (update_remote t s)

-- Each sequence number is newer than the one before it, by less than 2^31.
unfoldable pub InOrder : ℕ → List ℕ → Type 0
InOrder last [] = Unit {0}
InOrder last (s ∷ rest) = (last < s) × (s ≤ last + 0x7FFF_FFFF) × (s < word) × InOrder s rest

-- bit `k` of the tracker is set where the packet `k` before the last one is among those seen
abbrev pub Records : List ℕ → AckTracker → Type 0
Records seen t =
    (k : ℕ) → k ≤ t.remote_sequence → bit t.ack_bitfield k ≡ contains seen (t.remote_sequence - k)

abbrev stepped : AckTracker → ℕ → AckTracker
stepped t s = record t {
  ack_bitfield = t.ack_bitfield * 2 ^ (s - t.remote_sequence) + 1;
  remote_sequence = s;
}

abbrev Agrees : List ℕ → List ℕ → AckTracker → ℕ → Type 0
Agrees rest seen t k =
    bit t.ack_bitfield k
    ≡ (contains rest (t.remote_sequence - k) || contains seen (t.remote_sequence - k))

-- A packet that comes late, by less than 2^31, or twice, is not recorded: the tracker stays as it is.
pub update_remote_late :
    (t : AckTracker) (s : ℕ)
    → s ≤ t.remote_sequence
    → t.remote_sequence < s + 0x8000_0000
    → t.remote_sequence < word
    → update_remote t s ≡ t
unfolding update_remote delta
update_remote_late t s late near small = ground arith
