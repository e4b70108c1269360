-- ===== src/Mqttc/Wire.antt =====
-- The network of a client of mqttc over a stream of bytes in each direction: `MqttRead` of
-- mqtt3/src/read.rs and `MqttWrite` of mqtt3/src/write.rs as a `Connection` of netopt/src/conn.rs has
-- them, with buffers that hold all that is written. The streams never fail, and no time passes.
pub mod Ends
pub mod Exchange
use rust_mq.Base.{ℕ, List, []}
use rust_mq.Outcome.{Outcome, done, failed, panicked, stuck}
use rust_mq.Mqtt3.Bytes.{Bytes}
use rust_mq.Mqtt3.Errors.{Error}
use rust_mq.Mqtt3.Packet.{Packet}
use rust_mq.Mqtt3.Read
use rust_mq.Mqtt3.Write
use rust_mq.Mqttc.Network.{Network}

pub record Wire : Type 0 where
  pub incoming : Bytes
  pub outgoing : Bytes

abbrev pub received : Wire → Outcome Error Bytes Packet → Outcome Error Wire Packet
received n (done p rest) = done p (record n { incoming = rest })
received n (failed e rest) = failed e (record n { incoming = rest })
received n panicked = panicked
received n stuck = stuck

abbrev pub sent : Wire → Outcome Error Bytes (Unit {0}) → Outcome Error Wire (Unit {0})
sent n (done _ out) = done tt (record n { outgoing = out })
sent n (failed e out) = failed e (record n { outgoing = out })
sent n panicked = panicked
sent n stuck = stuck

unfoldable pub wire : Network Wire
unfolding Read.read_packet Write.write_packet
wire = record {
  read_packet = λ n. received n (Read.read_packet n.incoming);
  write_packet = λ p n. sent n (Write.write_packet p n.outgoing);
  flush = λ n. done tt n;
  set_read_timeout = λ dur n. done tt n;
  terminate = λ n. done tt n;
  connect = λ keep_alive n. done tt n;
  sleep = λ dur n. n;
  now = λ n. 0;
}
