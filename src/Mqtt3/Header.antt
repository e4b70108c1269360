-- ===== src/Mqtt3/Header.antt =====
-- `Header` of mqtt3/src/lib.rs.
use rust_mq.Base.{ℕ, Bool, not, bit_and, ◌==◌}
use rust_mq.Outcome.{Result, ok, err}
use rust_mq.Mqtt3.Errors.{Error}
use rust_mq.Mqtt3.Qos.{Qos, from_hd}
use rust_mq.Mqtt3.PacketType.{PacketType}
use rust_mq.Mqtt3.PacketType

pub record Header : Type 0 where
  pub hd : ℕ
  pub typ : PacketType
  pub len : ℕ

abbrev with_type : ℕ → ℕ → Result Error PacketType → Result Error Header
with_type hd len (ok typ) = ok (record { hd = hd; typ = typ; len = len })
with_type hd len (err e) = err e

unfoldable pub new : ℕ → ℕ → Result Error Header
unfolding PacketType.from_hd
new hd len = with_type hd len (PacketType.from_hd hd)

unfoldable pub dup : Header → Bool
dup h = not (bit_and h.hd 0b1000 == 0)

unfoldable pub qos : Header → Result Error Qos
unfolding from_hd
qos h = from_hd h.hd

unfoldable pub retain : Header → Bool
retain h = not (bit_and h.hd 1 == 0)
