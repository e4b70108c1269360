-- ===== src/Command/Examples/Listening.antt =====
-- The loop of the subscribe command on the network of packets.
use rust_mq.Base.{◌≡◌, refl, true, false, List, [], ◌∷◌, none, some}
use rust_mq.Outcome.{done, failed}
use rust_mq.Mqtt3.Bytes.{codes}
use rust_mq.Mqtt3.Qos.{exactly_once}
use rust_mq.Mqtt3.Packet.{Packet, Publish}
use rust_mq.Mqtt3.TopicExamples.{plain_path}
use rust_mq.Mqttc.Errors.{not_found}
use rust_mq.Mqttc.Store.{LocalStorage, local_storage}
use rust_mq.Mqttc.Options.{ClientOptions, new, seconds, reconnect_after}
use rust_mq.Mqttc.Client.{Client, connected, normalized, is_connected}
use rust_mq.Mqttc.Client.Life.{fresh, await}
use rust_mq.Mqttc.Client.Flow.Receive.{received}
use rust_mq.Mqttc.Examples.{Script, script, plain_str}
use rust_mq.Command.Subscribe.Run.{listen}
use rust_mq.Command.Subscribe.Received.{listen-received}
use rust_mq.Command.Subscribe.Broken.{listen-eof}

abbrev hello : Publish
hello = record {
  dup = false;
  qos = exactly_once;
  retain = false;
  topic_name = codes "a/b";
  pid = some 7;
  payload = codes "hello";
}

abbrev options : ClientOptions LocalStorage
options = record (new {S = LocalStorage}) {
  client_id = some (codes "test");
  keep_alive = some (seconds 30);
  reconnect = reconnect_after (seconds 1);
  incomming_store = some [];
}

abbrev at_work : List Packet → List Packet → Script
at_work input output = record { input = input; output = output }

abbrev subscriber : Script → Client Script LocalStorage
subscriber n = record (fresh script local_storage options n) { state = connected; last_flush = 0 }

listen-received_example :
    (c₂ c₃ : Client Script LocalStorage) × (s₃ : LocalStorage) × (await script local_storage 2
        (subscriber (at_work (Packet.publish hello ∷ Packet.pubrel 7 ∷ []) []))
      ≡ done (some (received script local_storage plain_path hello 7)) c₂)
    × (listen script 2 5 (subscriber (at_work (Packet.publish hello ∷ Packet.pubrel 7 ∷ []) []))
        ≡ listen script 2 4 c₃)
    × (c₃.incomming_rec ≡ [])
    × (c₃.incomming_rel ≡ [])
    × (c₃.opts.incomming_store ≡ some s₃)
    × (local_storage.get 7 s₃ ≡ failed (not_found 7) s₃)
    × (c₃.conn ≡ at_work [] (Packet.pubrec 7 ∷ Packet.pubcomp 7 ∷ []))
listen-received_example =
    listen-received script hello plain_path 7 0 4
      (subscriber (at_work (Packet.publish hello ∷ Packet.pubrel 7 ∷ []) [])) []
      (at_work (Packet.publish hello ∷ Packet.pubrel 7 ∷ []) []) (at_work (Packet.pubrel 7 ∷ []) [])
      (at_work (Packet.pubrel 7 ∷ []) (Packet.pubrec 7 ∷ []))
      (at_work (Packet.pubrel 7 ∷ []) (Packet.pubrec 7 ∷ []))
      (at_work (Packet.pubrel 7 ∷ []) (Packet.pubrec 7 ∷ [])) (at_work [] (Packet.pubrec 7 ∷ []))
      (at_work [] (Packet.pubrec 7 ∷ Packet.pubcomp 7 ∷ []))
      (at_work [] (Packet.pubrec 7 ∷ Packet.pubcomp 7 ∷ [])) refl refl refl refl refl plain_str refl
      refl refl (refl, refl) refl refl refl (refl, refl) refl refl refl

calm : normalized (subscriber (at_work [] [])) ≡ true
unfolding normalized is_connected
calm = refl

listen-eof_example :
    (c' : Client Script LocalStorage) × (await script local_storage 1 (subscriber (at_work [] []))
      ≡ done none c')
    × (listen script 1 5 (subscriber (at_work [] [])) ≡ listen script 1 4 c')
    × (c'.state ≡ connected)
    × (c'.conn ≡ at_work [] [])
listen-eof_example =
    listen-eof script 0 4 (subscriber (at_work [] [])) (seconds 1) (at_work [] []) (at_work [] [])
      refl calm refl refl refl
