-- ===== src/Transport/Tracker.antt =====
-- packages/evoid-transport/evoid_transport/__init__.py: the class `ACKTracker`.
pub mod Sequence
pub mod Window
use evoid_plugins.Prelude.{ℕ, ◌+◌, ◌-◌, ◌*◌, ◌%◌, ◌^◌, ◌||◌, nat_eq, ◌==◌, if◌then◌else◌, ltb}
use evoid_plugins.Transport.Bytes.{word}

pub record AckTracker : Type 0 where
  pub local_sequence : ℕ
  pub remote_sequence : ℕ
  pub ack_bitfield : ℕ

-- `ACKTracker()`
abbrev pub fresh : AckTracker
fresh = record { local_sequence = 0; remote_sequence = 0; ack_bitfield = 0 }

-- `next_sequence`: the number, and the tracker after it
unfoldable pub next_sequence : AckTracker → ℕ × AckTracker
next_sequence t = (t.local_sequence, record t { local_sequence = (t.local_sequence + 1) % word })

-- `(remote_seq - self.remote_sequence) & 0xFFFFFFFF`
unfoldable pub delta : AckTracker → ℕ → ℕ
delta t remote_seq = (remote_seq + word - t.remote_sequence % word) % word

-- `update_remote`. The shift by at least one leaves the lowest bit clear, so `| 1` adds 1.
unfoldable pub update_remote : AckTracker → ℕ → AckTracker
unfolding delta
update_remote t remote_seq =
    if delta t remote_seq == 0 || ltb 0x7FFF_FFFF (delta t remote_seq) then t else record t {
      ack_bitfield = t.ack_bitfield * 2 ^ delta t remote_seq + 1;
      remote_sequence = remote_seq;
    }

-- the property `last_ack`
unfoldable pub last_ack : AckTracker → ℕ
last_ack t = t.remote_sequence
