-- ===== src/Mqtt3/Qos.antt =====
-- `QoS` of mqtt3/src/lib.rs.
use rust_mq.Base.{ℕ, ◌/◌, ◌≡◌, refl, Bool, true, false, bit_and, ◌==◌, if◌then◌else◌}
use rust_mq.Outcome.{Result, ok, err}
use rust_mq.Mqtt3.Errors.{Error, unsupported_quality_of_service}

pub data Qos : Type 0 where
  at_most_once at_least_once exactly_once : Qos

unfoldable pub from_u8 : ℕ → Result Error Qos
from_u8 byte =
    if byte == 0
    then ok at_most_once
    else if byte == 1
    then ok at_least_once
    else if byte == 2
    then ok exactly_once
    else err unsupported_quality_of_service

unfoldable pub from_hd : ℕ → Result Error Qos
unfolding from_u8
from_hd hd = from_u8 (bit_and hd 0b110 / 2)

unfoldable pub to_u8 : Qos → ℕ
to_u8 at_most_once = 0
to_u8 at_least_once = 1
to_u8 exactly_once = 2

-- The derived `PartialEq`.
unfoldable pub eq : Qos → Qos → Bool
eq at_most_once at_most_once = true
eq at_least_once at_least_once = true
eq exactly_once exactly_once = true
eq _ _ = false

unfoldable pub min : Qos → Qos → Qos
unfolding eq
min at_most_once other = at_most_once
min at_least_once other = if eq other at_most_once then at_most_once else at_least_once
min exactly_once other = other

pub from_u8-to_u8 : (q : Qos) → from_u8 (to_u8 q) ≡ ok q
unfolding from_u8 to_u8
from_u8-to_u8 at_most_once = refl
from_u8-to_u8 at_least_once = refl
from_u8-to_u8 exactly_once = refl
