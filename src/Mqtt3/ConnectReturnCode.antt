-- ===== src/Mqtt3/ConnectReturnCode.antt =====
-- `ConnectReturnCode` of mqtt3/src/lib.rs.
use rust_mq.Base.{ℕ, ◌==◌, ◌≡◌, refl, if◌then◌else◌}
use rust_mq.Outcome.{Result, ok, err}
use rust_mq.Mqtt3.Errors.{Error, unsupported_connect_return_code}

pub data ConnectReturnCode : Type 0 where
  accepted refused_protocol_version refused_identifier_rejected : ConnectReturnCode
  server_unavailable bad_username_password not_authorized : ConnectReturnCode

unfoldable pub to_u8 : ConnectReturnCode → ℕ
to_u8 accepted = 0
to_u8 refused_protocol_version = 1
to_u8 refused_identifier_rejected = 2
to_u8 server_unavailable = 3
to_u8 bad_username_password = 4
to_u8 not_authorized = 5

unfoldable pub from_u8 : ℕ → Result Error ConnectReturnCode
from_u8 byte =
    if byte == 0
    then ok accepted
    else if byte == 1
    then ok refused_protocol_version
    else if byte == 2
    then ok refused_identifier_rejected
    else if byte == 3
    then ok server_unavailable
    else if byte == 4
    then ok bad_username_password
    else if byte == 5
    then ok not_authorized
    else err unsupported_connect_return_code

pub from_u8-to_u8 : (c : ConnectReturnCode) → from_u8 (to_u8 c) ≡ ok c
unfolding from_u8 to_u8
from_u8-to_u8 accepted = refl
from_u8-to_u8 _ = refl
