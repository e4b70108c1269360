-- ===== src/Mqttc/Network.antt =====
-- What the client asks of `netopt`: the `Connection` of netopt/src/conn.rs with the packets read from
-- it and written to it, `NetworkOptions::connect`, and the clock. `N` is the state of all that.
use rust_mq.Base.{ℕ, Option}
use rust_mq.Outcome.{Action}
use rust_mq.Mqtt3.Errors.{ErrorKind, Error}
use rust_mq.Mqtt3.Packet.{Packet}

-- Times are in nanoseconds. `connect` is the whole of `ClientOptions::_reconnect`: the connection,
-- the two timeouts of its stream, which are unwrapped, and `Connection::new`.
pub record Network (N : Type 0) : Type 0 where
  pub read_packet : Action Error N Packet
  pub write_packet : Packet → Action Error N (Unit {0})
  pub flush : Action ErrorKind N (Unit {0})
  pub set_read_timeout : Option ℕ → Action ErrorKind N (Unit {0})
  pub terminate : Action ErrorKind N (Unit {0})
  pub connect : Option ℕ → Action ErrorKind N (Unit {0})
  pub sleep : ℕ → N → N
  pub now : N → ℕ
