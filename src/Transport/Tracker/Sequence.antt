-- ===== src/Transport/Tracker/Sequence.antt =====
-- The sequence numbers that a tracker of packages/evoid-transport/evoid_transport/__init__.py gives.
use evoid_plugins.Prelude.{ℕ, zero, suc, ◌+◌, ◌%◌, ◌<◌, ◌≡◌, ◌≢◌, arith}
use evoid_plugins.Transport.Bytes.{word}
use evoid_plugins.Transport.Tracker.{AckTracker, next_sequence}

-- the tracker after `n` calls of `next_sequence`
unfoldable pub after_calls : ℕ → AckTracker → AckTracker
after_calls zero t = t
after_calls (suc n) t = after_calls n (next_sequence t).1

-- the number that call `n` gives, from 0
unfoldable pub number_of_call : ℕ → AckTracker → ℕ
number_of_call n t = (next_sequence (after_calls n t)).0

number_of_call_lem :
    (n : ℕ) (t : AckTracker)
    → t.local_sequence < word
    → number_of_call n t ≡ (t.local_sequence + n) % word
unfolding number_of_call after_calls next_sequence
number_of_call_lem zero t h = omega arith
number_of_call_lem (suc n) t h =
    omega (arith, number_of_call_lem n (next_sequence t).1 (omega arith))

-- Two calls that are fewer than 2^32 calls apart give different numbers, over the wrap-around too.
pub number_of_call-ne :
    (t : AckTracker) (i k : ℕ)
    → t.local_sequence < word
    → 0 < k
    → k < word
    → number_of_call i t ≢ number_of_call (i + k) t
number_of_call-ne t i k small pos near =
    λ same. omega (arith, number_of_call_lem i t small, number_of_call_lem (i + k) t small)
