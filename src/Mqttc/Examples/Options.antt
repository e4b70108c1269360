-- ===== src/Mqttc/Examples/Options.antt =====
-- The operators of `PubOpt` at two options: retain with QoS 1, and retain with QoS 2.
use Prim.Native.Nat.{min, max, differ}
use rust_mq.Base.{◌==◌, ◌-◌, ◌≤◌, ltb, if◌then◌else◌, ◌≡◌, true, arith}
use rust_mq.Base.Digits.{bit}
use rust_mq.Mqtt3.Qos.{exactly_once}
use rust_mq.Mqttc.PubOpt
use rust_mq.Mqttc.PubOpt.Bits.{Level, operators-bits}

small_five : 5 ≤ 255
small_five = omega arith

small_six : 6 ≤ 255
small_six = omega arith

operators-bits_example :
    (bit (PubOpt.bitor 5 6) 1 ≡ max (bit 5 1) (bit 6 1))
    × (bit (PubOpt.bitand 5 6) 1 ≡ min (bit 5 1) (bit 6 1))
    × (bit (PubOpt.bitxor 5 6) 1 ≡ differ (bit 5 1) (bit 6 1))
    × (bit (PubOpt.sub 5 6) 1 ≡ min (bit 5 1) (1 - bit 6 1))
    × (bit (PubOpt.not 5) 1 ≡ (if ltb 1 3 then 1 - bit 5 1 else 0))
    × (PubOpt.is_retain 5 ≡ (bit 5 2 == 1))
    × Level (bit 5 1) (bit 5 0) (PubOpt.qos 5)
    × (PubOpt.qos (PubOpt.new exactly_once true) ≡ exactly_once)
    × (PubOpt.is_retain (PubOpt.new exactly_once true) ≡ true)
operators-bits_example = operators-bits 5 6 1 exactly_once true small_five small_six
