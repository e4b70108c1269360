-- ===== src/Mqttc/Examples/Queues.antt =====
-- The queues of the client on the network of packets: a message of QoS 1 that is received, two of
-- QoS 2 that are completed, and the client that waits for a PUBCOMP.
use rust_mq.Base.{◌≡◌, refl, true, false, [], ◌∷◌, ◌++◌, none, some}
use rust_mq.Outcome.{done, failed}
use rust_mq.Mqtt3.Qos.{at_least_once}
use rust_mq.Mqtt3.Packet.{Packet, Publish}
use rust_mq.Mqtt3.Samples.{sample_publish}
use rust_mq.Mqtt3.TopicExamples.{plain_path, sample_message}
use rust_mq.Mqttc.Errors.{protocol_violation}
use rust_mq.Mqttc.Store.{LocalStorage, local_storage}
use rust_mq.Mqttc.Client.{Client, normalized}
use rust_mq.Mqttc.Client.Incoming.{parse_packet}
use rust_mq.Mqttc.Client.Outgoing.{complete}
use rust_mq.Mqttc.Client.Flow.Complete.{complete-in_order}
use rust_mq.Mqttc.Client.Flow.Deliver.{delivered, at_least_once-receive}
use rust_mq.Mqttc.Client.Flow.Idle.{normalized-pubrec}
use rust_mq.Mqttc.Examples.{Script, script, accepted_client, plain_str, second_message, one-not-two}

abbrev single_publish : Publish
single_publish = record sample_publish { qos = at_least_once }

abbrev answering : Script
answering = record accepted_client.conn {
  output = accepted_client.conn.output ++ Packet.puback 10 ∷ [];
}

at_least_once-receive_example :
    parse_packet script local_storage (Packet.publish single_publish) accepted_client
    ≡ done
        (some (delivered script local_storage plain_path single_publish 10))
        (record accepted_client { incomming_pub = []; conn = answering; last_flush = 0 })
at_least_once-receive_example =
    at_least_once-receive script local_storage accepted_client single_publish plain_path 10
      answering answering refl refl plain_str refl refl refl refl refl

abbrev both_stored : LocalStorage
both_stored = (1, sample_message) ∷ (2, second_message) ∷ []

get_first : local_storage.get 1 both_stored ≡ done sample_message both_stored
unfolding local_storage
get_first = refl

get_second : local_storage.get 2 both_stored ≡ done second_message both_stored
unfolding local_storage
get_second = refl

abbrev receiving_client : Client Script LocalStorage
receiving_client = record accepted_client {
  opts = record accepted_client.opts { incomming_store = some both_stored };
  incomming_rec = sample_message ∷ second_message ∷ [];
}

complete-in_order_example :
    (c₁ c₂ c₃ c₄ : Client Script LocalStorage) × (parse_packet script local_storage
        (Packet.pubrel 1)
        receiving_client
      ≡ done (some sample_message) c₁)
    × (parse_packet script local_storage (Packet.pubrel 2) c₁ ≡ done (some second_message) c₂)
    × (complete script local_storage 1 c₂ ≡ failed protocol_violation c₃)
    × (complete script local_storage 2 c₃ ≡ failed protocol_violation c₄)
    × (c₄.incomming_rel ≡ [])
complete-in_order_example =
    complete-in_order script local_storage receiving_client sample_message second_message
      sample_message second_message [] 1 2 both_stored both_stored both_stored refl refl refl refl
      one-not-two refl get_first get_second

delete_first : local_storage.delete 1 ((1, sample_message) ∷ []) ≡ done tt []
unfolding local_storage
delete_first = refl

abbrev releasing_client : Client Script LocalStorage
releasing_client = record accepted_client {
  opts = record accepted_client.opts { outgoing_store = some ((1, sample_message) ∷ []) };
  outgoing_rec = sample_message ∷ [];
}

abbrev released_conn : Script
released_conn = record accepted_client.conn {
  output = accepted_client.conn.output ++ Packet.pubrel 1 ∷ [];
}

normalized-pubrec_example :
    (c : Client Script LocalStorage) × (normalized releasing_client ≡ false)
    × (parse_packet script local_storage (Packet.pubrec 1) releasing_client ≡ done none c)
    × (c.conn ≡ released_conn)
    × (c.outgoing_comp ≡ 1 ∷ [])
    × (normalized c ≡ true)
normalized-pubrec_example =
    normalized-pubrec script local_storage releasing_client sample_message 1
      ((1, sample_message) ∷ []) [] released_conn released_conn
      (refl, refl, refl, refl, refl, refl, refl, refl) refl refl refl refl delete_first refl refl
