-- ===== src/Mqtt3/Errors.antt =====
-- mqtt3/src/error.rs: the errors of the protocol crate.

-- The kinds of `std::io::Error` that the crates tell apart; every other kind is `other`.
pub data ErrorKind : Type 0 where
  would_block timed_out unexpected_eof connection_refused connection_reset : ErrorKind
  connection_aborted other : ErrorKind

pub data Error : Type 0 where
  incorrect_packet_format invalid_topic_path unsupported_protocol_name : Error
  unsupported_protocol_version unsupported_quality_of_service unsupported_packet_type : Error
  unsupported_connect_return_code payload_size_incorrect payload_too_long payload_required : Error
  topic_name_must_not_contain_non_utf8 topic_name_must_not_contain_wildcard : Error
  malformed_remaining_length unexpected_eof : Error
  io : ErrorKind → Error
