-- ===== src/Mqtt3/Codec/Counts.antt =====
-- The count of bytes left that the loops over topics of mqtt3/src/read.rs keep.
use rust_mq.Base.{ℕ, ◌+◌, ◌^◌, ◌<◌, ◌≡◌, false, arith, ◌==◌}
use rust_mq.Mqtt3.Read.{sub_usize}

pub ==-zero_of_pos : (n : ℕ) → 0 < n → (n == 0) ≡ false
==-zero_of_pos n h = ground arith

-- What is left of a count that was right before an entry of `n` bytes.
pub sub_usize_exact : (m n rest : ℕ) → m ≡ n + rest → m < 2 ^ 64 → sub_usize m n ≡ rest
sub_usize_exact m n rest e h = omega arith
