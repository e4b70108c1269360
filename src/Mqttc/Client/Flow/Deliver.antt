-- ===== src/Mqttc/Client/Flow/Deliver.antt =====
-- A message received with QoS 1 in mqttc/src/client.rs: PUBLISH and the PUBACK that answers it.
use rust_mq.Base.{◌≡◌, refl, false, [], some}
use rust_mq.Outcome.{ok, done}
use rust_mq.Mqtt3.Qos.{at_least_once}
use rust_mq.Mqtt3.PacketIdentifier.{PacketIdentifier}
use rust_mq.Mqtt3.Packet.{Packet, Publish}
use rust_mq.Mqtt3.Topic.{TopicPath, from_str}
use rust_mq.Mqtt3.Message.{Message, from_pub}
use rust_mq.Mqttc.Store.{Store}
use rust_mq.Mqttc.Network.{Network}
use rust_mq.Mqttc.Client.{Client, connected, write_packet, flush}
use rust_mq.Mqttc.Client.Incoming.{on_publish, handle_message, parse_in, parse_packet}

module _ {N S : Type 0} (net : Network N) (store : Store S) where
  abbrev pub delivered : TopicPath → Publish → PacketIdentifier → Message
  delivered path p pid = record {
    topic = path;
    qos = at_least_once;
    retain = p.retain;
    pid = some pid;
    payload = p.payload;
  }

  -- Receiving a PUBLISH of QoS 1 on a connected client with no such message in the queue: just the
  -- PUBACK with its packet identifier is written to the connection and flushed, the user is given the
  -- message, the queue is empty again, and nothing else of the client changes but the time of the
  -- last flush.
  pub at_least_once-receive :
      (c : Client N S) (p : Publish) (path : TopicPath) (pid : PacketIdentifier) (n₁ n₂ : N)
      → c.state ≡ connected
      → c.incomming_pub ≡ []
      → from_str p.topic_name ≡ ok path
      → path.wildcards ≡ false
      → p.qos ≡ at_least_once
      → p.pid ≡ some pid
      → net.write_packet (Packet.puback pid) c.conn ≡ done tt n₁
      → net.flush n₁ ≡ done tt n₂
      → parse_packet net store (Packet.publish p) c
        ≡ done
            (some (delivered path p pid))
            (record c { incomming_pub = []; conn = n₂; last_flush = net.now n₂ })
  unfolding parse_packet parse_in on_publish handle_message write_packet flush from_pub
  at_least_once-receive c p path pid n₁ n₂ st q name plain level id sent flushed =
      rw (st, name, plain, level, id, q, sent, flushed) refl
