-- ===== src/Mqtt3/PacketIdentifier.antt =====
-- `PacketIdentifier(u16)` of mqtt3/src/lib.rs, as its number.
use rust_mq.Base.{ℕ, ◌+◌, ◌%◌, ◌^◌}

abbrev pub PacketIdentifier : Type 0
PacketIdentifier = ℕ

abbrev pub zero : PacketIdentifier
zero = 0

-- `self.0 + 1` on a `u16`, as the release build computes it.
unfoldable pub next : PacketIdentifier → PacketIdentifier
next p = (p + 1) % 2 ^ 16
