-- ===== src/Mqtt3/Protocol.antt =====
-- `Protocol` of mqtt3/src/lib.rs.
use rust_mq.Base.{ℕ, [], ◌∷◌, ◌==◌, ◌≡◌, bytes_eq, if◌then◌else◌}
use rust_mq.Outcome.{Result, ok, err}
use rust_mq.Mqtt3.Bytes.{Text}
use rust_mq.Mqtt3.Errors.{Error, unsupported_protocol_name, unsupported_protocol_version}

pub data Protocol : Type 0 where
  mq_isdp : ℕ → Protocol
  mqtt : ℕ → Protocol

abbrev mq_isdp_name : Text
mq_isdp_name = b'M' ∷ b'Q' ∷ b'I' ∷ b's' ∷ b'd' ∷ b'p' ∷ []

abbrev mqtt_name : Text
mqtt_name = b'M' ∷ b'Q' ∷ b'T' ∷ b'T' ∷ []

unfoldable pub new : Text → ℕ → Result Error Protocol
unfolding bytes_eq
new name level =
    if bytes_eq name mq_isdp_name
    then (if level == 3 then ok (mq_isdp 3) else err unsupported_protocol_version)
    else if bytes_eq name mqtt_name
    then (if level == 4 then ok (mqtt 4) else err unsupported_protocol_version)
    else err unsupported_protocol_name

unfoldable pub name : Protocol → Text
name (mq_isdp _) = mq_isdp_name
name (mqtt _) = mqtt_name

unfoldable pub level : Protocol → ℕ
level (mq_isdp l) = l
level (mqtt l) = l

-- The two protocols that `new` makes.
pub data IsSupported : Protocol → Type 0 where
  version_3_1 : {l : ℕ} → l ≡ 3 → IsSupported (mq_isdp l)
  version_3_1_1 : {l : ℕ} → l ≡ 4 → IsSupported (mqtt l)
