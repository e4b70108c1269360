-- ===== src/Mqttc/Client/Incoming.antt =====
-- What `Client` of mqttc/src/client.rs does with a packet that it has read: `_parse_packet` and
-- `_handle_message`, one function for each arm.
pub mod Arms
pub mod Safety
pub mod Subscriptions
use rust_mq.Base.{
  ℕ, ◌==◌, Bool, true, false, List, [], ◌∷◌, ◌++◌, Option, none, some, if◌then◌else◌, length,
  bytes_eq,
}
use rust_mq.Base.Maps.{insert, remove}
use rust_mq.Outcome.{
  Result, ok, err, Outcome, done, failed, panicked, stuck, Action, ◌>>=◌, ◌>>◌, pure, fail,
}
use rust_mq.Mqtt3.Bytes.{Text}
use rust_mq.Mqtt3.Errors
use rust_mq.Mqtt3.Qos.{Qos, at_most_once, at_least_once, exactly_once}
use rust_mq.Mqtt3.PacketIdentifier.{PacketIdentifier}
use rust_mq.Mqtt3.ConnectReturnCode.{ConnectReturnCode, accepted}
use rust_mq.Mqtt3.Packet.{
  Packet, Connack, Publish, Subscribe, SubscribeTopic, SubscribeReturnCodes, success, failure,
  Suback, Unsubscribe,
}
use rust_mq.Mqtt3.Topic.{TopicPath, from_str}
use rust_mq.Mqtt3.Message.{Message, from_pub}
use rust_mq.Mqttc.Errors.{
  Error, from_mqtt, incomming_storage_absent, already_connected, unrecognized_packet,
  connection_abort, handshake_failed, protocol_violation, unhandled_puback, unhandled_pubrec,
  unhandled_pubrel, unhandled_pubcomp, connection_refused,
}
use rust_mq.Mqttc.Store.{Store}
use rust_mq.Mqttc.Network.{Network}
use rust_mq.Mqttc.Sub.{Subscription}
use rust_mq.Mqttc.Client.{
  ClientState, handshake, connected, disconnected, Client, Method, modify, push_back, write_packet,
  flush, on_outgoing, on_incomming,
}
use rust_mq.Mqttc.Client.Outgoing.{from_mqtt3, has_pid}

-- `VecDeque::pop_front` where the element is dropped.
abbrev pub pop_front : {A : Type 0} → List A → List A
pop_front [] = []
pop_front (x ∷ xs) = xs

unfoldable pub is_accepted : ConnectReturnCode → Bool
is_accepted accepted = true
is_accepted _ = false

abbrev pub subscription : PacketIdentifier → TopicPath → Qos → Subscription
subscription pid path qos = record { pid = pid; topic_path = path; qos = qos }

unfoldable pub remove_all : List Text → List (Text × Subscription) → List (Text × Subscription)
unfolding remove
remove_all [] subs = subs
remove_all (topic ∷ topics) subs = remove_all topics (remove bytes_eq topic subs)

module _ {N S : Type 0} where
  -- `message.pid.unwrap()`.
  abbrev pub unwrap_pid : Option PacketIdentifier → Method N S PacketIdentifier
  unwrap_pid none c = panicked
  unwrap_pid (some pid) c = done pid c

  unfoldable pub on_connack : Connack → Method N S (Option Message)
  unfolding is_accepted
  on_connack connack c =
      if is_accepted connack.code
      then done none (record c { session_present = connack.session_present; state = connected })
      else failed (connection_refused connack.code) c

  abbrev pub puback_of :
      PacketIdentifier → Client N S → List Message → Outcome Error (Client N S) (Option Message)
  puback_of pid c [] = failed (unhandled_puback pid) c
  puback_of pid c (message ∷ rest) =
      if has_pid message.pid pid
      then done none (record c { outgoing_ack = rest })
      else failed (unhandled_puback pid) (record c { outgoing_ack = rest })

  unfoldable pub on_puback : PacketIdentifier → Method N S (Option Message)
  on_puback pid c = puback_of pid c c.outgoing_ack

  abbrev pub pubcomp_of :
      PacketIdentifier
      → Client N S
      → List PacketIdentifier
      → Outcome Error (Client N S) (Option Message)
  pubcomp_of pid c [] = failed (unhandled_pubcomp pid) c
  pubcomp_of pid c (_ ∷ rest) = done none (record c { outgoing_comp = rest })

  unfoldable pub on_pubcomp : PacketIdentifier → Method N S (Option Message)
  on_pubcomp pid c = pubcomp_of pid c c.outgoing_comp

  abbrev insert_subscription : Text → Subscription → Method N S (Unit {0})
  insert_subscription topic sub c =
      done tt (record c { subscriptions = insert bytes_eq topic sub c.subscriptions })

  -- The loop over the return codes and the topics, side by side.
  unfoldable pub subscribe_all :
      PacketIdentifier → List SubscribeReturnCodes → List SubscribeTopic → Method N S (Unit {0})
  unfolding insert from_str
  subscribe_all pid (success qos ∷ codes) (t ∷ topics) = do
    path ← from_mqtt3 (from_str t.topic_path)
    insert_subscription t.topic_path (subscription pid path qos)
    subscribe_all pid codes topics
  subscribe_all pid (failure ∷ codes) (t ∷ topics) = subscribe_all pid codes topics
  subscribe_all pid _ _ = pure tt

  abbrev pub suback_of :
      Suback → Client N S → List Subscribe → Outcome Error (Client N S) (Option Message)
  suback_of suback c [] = failed protocol_violation c
  suback_of suback c (subscribe ∷ rest) =
      if subscribe.pid == suback.pid
      then (if length subscribe.topics == length suback.return_codes
            then (subscribe_all subscribe.pid suback.return_codes subscribe.topics >> pure none)
            else fail protocol_violation)
          (record c { await_suback = rest })
      else failed protocol_violation (record c { await_suback = rest })

  unfoldable pub on_suback : Suback → Method N S (Option Message)
  unfolding subscribe_all
  on_suback suback c = suback_of suback c c.await_suback

  abbrev pub unsuback_of :
      PacketIdentifier → Client N S → List Unsubscribe → Outcome Error (Client N S) (Option Message)
  unsuback_of pid c [] = failed protocol_violation c
  unsuback_of pid c (unsubscribe ∷ rest) =
      if unsubscribe.pid == pid
      then done none (record c {
        await_unsuback = rest;
        subscriptions = remove_all unsubscribe.topics c.subscriptions;
      })
      else failed protocol_violation (record c { await_unsuback = rest })

  unfoldable pub on_unsuback : PacketIdentifier → Method N S (Option Message)
  unfolding remove_all
  on_unsuback pid c = unsuback_of pid c c.await_unsuback

module _ {N S : Type 0} (net : Network N) (store : Store S) where
  -- `_handle_message`.
  unfoldable pub handle_message : Qos → Message → Method N S (Option Message)
  handle_message at_most_once message = pure (some message)
  handle_message at_least_once message = do
    modify (λ c. record c { incomming_pub = push_back c.incomming_pub message })
    pid ← unwrap_pid message.pid
    write_packet net (Packet.puback pid)
    flush net
    λ c. done (some message) (record c { incomming_pub = pop_front c.incomming_pub })
  handle_message exactly_once message = do
    modify (λ c. record c { incomming_rec = push_back c.incomming_rec message })
    pid ← unwrap_pid message.pid
    on_incomming (store.put message) incomming_storage_absent
    write_packet net (Packet.pubrec pid)
    flush net
    pure none

  abbrev from_mqtt_error :
      {A : Type 0} → Outcome Errors.Error (Client N S) A → Outcome Error (Client N S) A
  from_mqtt_error (done a c) = done a c
  from_mqtt_error (failed e c) = failed (from_mqtt e) c
  from_mqtt_error panicked = panicked
  from_mqtt_error stuck = stuck

  unfoldable pub on_publish : Publish → Method N S (Option Message)
  unfolding handle_message
  on_publish publish = do
    message ← λ c. from_mqtt_error (from_pub publish c)
    handle_message message.qos message

  abbrev pub pubrec_of :
      PacketIdentifier → Client N S → List Message → Outcome Error (Client N S) (Option Message)
  pubrec_of pid c [] = failed (unhandled_pubrec pid) c
  pubrec_of pid c (message ∷ rest) =
      if has_pid message.pid pid
      then (do
        write_packet net (Packet.pubrel pid)
        flush net
        modify (λ c. record c { outgoing_comp = push_back c.outgoing_comp pid })
        on_outgoing (store.delete pid) incomming_storage_absent
        pure none)
          (record c { outgoing_rec = rest })
      else failed (unhandled_pubrec pid) (record c { outgoing_rec = rest })

  unfoldable pub on_pubrec : PacketIdentifier → Method N S (Option Message)
  on_pubrec pid c = pubrec_of pid c c.outgoing_rec

  abbrev pub pubrel_of :
      PacketIdentifier → Client N S → List Message → Outcome Error (Client N S) (Option Message)
  pubrel_of pid c [] = failed (unhandled_pubrel pid) c
  pubrel_of pid c (message ∷ rest) =
      if has_pid message.pid pid
      then (do
        released ← on_incomming (store.get pid) incomming_storage_absent
        λ c. done (some released) (record c { incomming_rel = push_back c.incomming_rel pid }))
          (record c { incomming_rec = rest })
      else failed (unhandled_pubrel pid) (record c { incomming_rec = rest })

  unfoldable pub on_pubrel : PacketIdentifier → Method N S (Option Message)
  on_pubrel pid c = pubrel_of pid c c.incomming_rec

  -- `_parse_packet`, by the state of the client.
  unfoldable pub parse_in : ClientState → Packet → Method N S (Option Message)
  unfolding on_connack
  parse_in handshake (Packet.connack connack) = on_connack connack
  parse_in handshake _ = fail handshake_failed
  parse_in connected (Packet.connack connack) = fail already_connected
  parse_in connected (Packet.publish publish) = on_publish publish
  parse_in connected (Packet.puback pid) = on_puback pid
  parse_in connected (Packet.pubrec pid) = on_pubrec pid
  parse_in connected (Packet.pubrel pid) = on_pubrel pid
  parse_in connected (Packet.pubcomp pid) = on_pubcomp pid
  parse_in connected (Packet.suback suback) = on_suback suback
  parse_in connected (Packet.unsuback pid) = on_unsuback pid
  parse_in connected Packet.pingresp = λ c. done none (record c { await_ping = false })
  parse_in connected _ = fail unrecognized_packet
  parse_in disconnected _ = fail connection_abort

  unfoldable pub parse_packet : Packet → Method N S (Option Message)
  unfolding parse_in
  parse_packet packet c = parse_in c.state packet c
