-- ===== src/Mqttc/PubOpt.antt =====
-- `PubOpt(u8)` of mqttc/src/lib.rs, as its bits.
pub mod Bits
use rust_mq.Base.{
  ℕ, ◌-◌, ◌==◌, ◌≡◌, refl, Bool, true, false, bit_and, bit_or, bit_xor, if◌then◌else◌,
}
use rust_mq.Base
use rust_mq.Mqtt3.Qos.{Qos}
use rust_mq.Mqtt3.Qos

abbrev pub PubOpt : Type 0
PubOpt = ℕ

abbrev pub at_most_once : PubOpt
at_most_once = 0x00

abbrev pub at_least_once : PubOpt
at_least_once = 0x01

abbrev pub exactly_once : PubOpt
exactly_once = 0x02

abbrev pub retain : PubOpt
retain = 0x04

unfoldable pub bitor : PubOpt → PubOpt → PubOpt
bitor a b = bit_or a b

unfoldable pub bitxor : PubOpt → PubOpt → PubOpt
bitxor a b = bit_xor a b

unfoldable pub bitand : PubOpt → PubOpt → PubOpt
bitand a b = bit_and a b

-- `!` on a `u8` turns its eight bits.
unfoldable pub sub : PubOpt → PubOpt → PubOpt
sub a b = bit_and a (255 - b)

unfoldable pub not : PubOpt → PubOpt
not a = bit_and (255 - a) 0b111

unfoldable pub new : Qos → Bool → PubOpt
unfolding Qos.to_u8 bitor
new qos is_retained = if is_retained then bitor (Qos.to_u8 qos) retain else Qos.to_u8 qos

unfoldable pub qos : PubOpt → Qos
qos opt =
    if Base.not (bit_and opt exactly_once == 0)
    then Qos.exactly_once
    else if Base.not (bit_and opt at_least_once == 0)
    then Qos.at_least_once
    else Qos.at_most_once

unfoldable pub is_retain : PubOpt → Bool
is_retain opt = Base.not (bit_and opt retain == 0)

-- An option that `new` makes keeps both of its parts.
pub new-parts : (q : Qos) (r : Bool) → (qos (new q r) ≡ q) × (is_retain (new q r) ≡ r)
unfolding new qos is_retain
new-parts Qos.at_most_once true = (refl, refl)
new-parts Qos.at_most_once false = (refl, refl)
new-parts Qos.at_least_once true = (refl, refl)
new-parts Qos.at_least_once false = (refl, refl)
new-parts Qos.exactly_once true = (refl, refl)
new-parts Qos.exactly_once false = (refl, refl)
