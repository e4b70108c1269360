-- ===== src/Mqttc/Examples/ExactlyOnce.antt =====
-- The two exchanges of one message of QoS 2 on the network of packets.
use rust_mq.Base.{◌≡◌, refl, [], ◌∷◌, ◌++◌, none, false, some}
use rust_mq.Outcome.{done}
use rust_mq.Mqtt3.Qos.{exactly_once}
use rust_mq.Mqtt3.PacketIdentifier.{next}
use rust_mq.Mqtt3.Packet.{Packet, Publish}
use rust_mq.Mqtt3.Samples.{sample_publish}
use rust_mq.Mqtt3.TopicExamples.{plain_path}
use rust_mq.Mqtt3.Message.{Message, to_pub}
use rust_mq.Mqttc.PubOpt
use rust_mq.Mqttc.Store.{LocalStorage, local_storage}
use rust_mq.Mqttc.Client.{Client}
use rust_mq.Mqttc.Client.Incoming.{parse_packet}
use rust_mq.Mqttc.Client.Outgoing.{publish, complete}
use rust_mq.Mqttc.Client.Flow.{outgoing_message}
use rust_mq.Mqttc.Client.Flow.Receive.{received, exactly_once-receive}
use rust_mq.Mqttc.Examples.{Script, script, accepted_client, plain_str}

abbrev sent_message : Message
sent_message =
    outgoing_message script local_storage plain_path (1 ∷ []) PubOpt.exactly_once (next 0)

-- The network after the packet of the message is written, and after the PUBREL is.
abbrev after_publish : Script
after_publish = record accepted_client.conn {
  output = accepted_client.conn.output ++ Packet.publish (to_pub sent_message none false) ∷ [];
}

abbrev after_pubrel : Script
after_pubrel = record after_publish { output = after_publish.output ++ Packet.pubrel (next 0) ∷ [] }

abbrev incoming_publish : Publish
incoming_publish = record sample_publish { qos = exactly_once }

abbrev received_message : Message
received_message = received script local_storage plain_path incoming_publish 10

put_received : local_storage.put received_message [] ≡ done tt ((10, received_message) ∷ [])
unfolding local_storage
put_received = refl

get_received :
    local_storage.get 10 ((10, received_message) ∷ [])
    ≡ done received_message ((10, received_message) ∷ [])
unfolding local_storage
get_received = refl

delete_received : local_storage.delete 10 ((10, received_message) ∷ []) ≡ done tt []
unfolding local_storage
delete_received = refl

-- The network after the PUBREC is written, and after the PUBCOMP is.
abbrev after_pubrec : Script
after_pubrec = record accepted_client.conn {
  output = accepted_client.conn.output ++ Packet.pubrec 10 ∷ [];
}

abbrev after_pubcomp : Script
after_pubcomp = record after_pubrec { output = after_pubrec.output ++ Packet.pubcomp 10 ∷ [] }

exactly_once-receive_example :
    (c₁ c₂ c₃ : Client Script LocalStorage) × (parse_packet script local_storage
        (Packet.publish incoming_publish)
        accepted_client
      ≡ done none c₁)
    × (c₁.conn ≡ after_pubrec)
    × (c₁.opts.incomming_store ≡ some ((10, received_message) ∷ []))
    × (parse_packet script local_storage (Packet.pubrel 10) c₁ ≡ done (some received_message) c₂)
    × (c₂.conn ≡ after_pubrec)
    × (complete script local_storage 10 c₂ ≡ done tt c₃)
    × (c₃.conn ≡ after_pubcomp)
    × (c₃.incomming_rec ≡ [])
    × (c₃.incomming_rel ≡ [])
    × (c₃.opts.incomming_store ≡ some [])
exactly_once-receive_example =
    exactly_once-receive script local_storage accepted_client incoming_publish plain_path 10
      received_message [] ((10, received_message) ∷ []) ((10, received_message) ∷ []) []
      after_pubrec after_pubrec after_pubcomp after_pubcomp refl refl refl refl plain_str refl refl
      refl put_received get_received delete_received refl refl refl refl
