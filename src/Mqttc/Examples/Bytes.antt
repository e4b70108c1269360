-- ===== src/Mqttc/Examples/Bytes.antt =====
-- One message of QoS 1 between two clients on a stream of bytes.
use rust_mq.Base.{◌≡◌, ◌≢◌, refl, [], ◌∷◌, none, some, arith}
use rust_mq.Base.Utf8.{is_utf8}
use rust_mq.Outcome.{done}
use rust_mq.Mqtt3.Bytes.{codes, IsShort}
use rust_mq.Mqtt3.Qos.{at_least_once}
use rust_mq.Mqtt3.PacketIdentifier.{next}
use rust_mq.Mqtt3.Topic.{text}
use rust_mq.Mqtt3.TopicExamples.{plain_path}
use rust_mq.Mqttc.PubOpt
use rust_mq.Mqttc.Store.{LocalStorage, local_storage}
use rust_mq.Mqttc.Options.{ClientOptions, new}
use rust_mq.Mqttc.Client.{Client, connected}
use rust_mq.Mqttc.Client.Outgoing.{publish}
use rust_mq.Mqttc.Client.Life.{fresh, accept}
use rust_mq.Mqttc.Examples.{plain_name}
use rust_mq.Mqttc.Wire.{Wire, wire}
use rust_mq.Mqttc.Wire.Ends.{meeting}
use rust_mq.Mqttc.Wire.Exchange.{publish-accept}

abbrev options : ClientOptions LocalStorage
options = record (new {S = LocalStorage}) {
  client_id = some (codes "test");
  keep_alive = none;
  incomming_store = some [];
  outgoing_store = some [];
}

abbrev client : Client Wire LocalStorage
client = record (fresh wire local_storage options (record { incoming = []; outgoing = [] })) {
  state = connected;
  last_flush = 0;
}

always : client.opts.keep_alive ≢ some 0
always e = cc

level : PubOpt.qos PubOpt.at_least_once ≡ at_least_once
unfolding PubOpt.qos
level = refl

short : IsShort (codes "a/b")
unfolding is_utf8
short = (refl, omega arith)

publish-accept_example :
    (c₁ c₂ : Client Wire LocalStorage) × (d₁ : Client Wire LocalStorage) × (publish wire
        local_storage
        (text (codes "a/b"))
        (1 ∷ [])
        PubOpt.at_least_once
        client
      ≡ done tt c₁)
    × (accept wire local_storage (done tt) (meeting client c₁.conn.outgoing)
        ≡ done
            (some (record {
              topic = plain_path;
              qos = at_least_once;
              retain = PubOpt.is_retain PubOpt.at_least_once;
              pid = some (next 0);
              payload = 1 ∷ [];
            }))
            d₁)
    × (d₁.conn.incoming ≡ [])
    × (d₁.incomming_pub ≡ [])
    × (accept wire local_storage (done tt) (meeting c₁ d₁.conn.outgoing) ≡ done none c₂)
    × (c₂.outgoing_ack ≡ [])
publish-accept_example =
    publish-accept local_storage local_storage (done tt) (done tt) client client (codes "a/b")
      plain_path (1 ∷ []) PubOpt.at_least_once refl always refl refl refl refl always refl refl
      plain_name level short (omega arith)
