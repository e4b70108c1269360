-- ===== src/Mqttc/Options.antt =====
-- `ClientOptions` of mqttc/src/client.rs. A `Duration` is its nanoseconds, the texts are bytes, and
-- `S` is the state behind a store.
use rust_mq.Base.{ℕ, ◌*◌, ◌/◌, ◌%◌, ◌^◌, Bool, true, Option, none, some}
use rust_mq.Outcome.{Result, ok, err}
use rust_mq.Mqtt3.Bytes.{Text}
use rust_mq.Mqtt3.Protocol.{Protocol, mqtt}
use rust_mq.Mqtt3.Packet.{LastWill, Connect}
use rust_mq.Mqtt3.Topic.{TopicPath, ToTopicPath, topic_path, to_topic_name}
use rust_mq.Mqtt3.Errors
use rust_mq.Mqttc.Errors.{Error, from_mqtt}
use rust_mq.Mqttc.PubOpt.{PubOpt}
use rust_mq.Mqttc.PubOpt

pub data ReconnectMethod : Type 0 where
  forever_disconnect : ReconnectMethod
  reconnect_after : ℕ → ReconnectMethod

-- `Duration::new(secs, 0)`.
abbrev pub seconds : ℕ → ℕ
seconds secs = secs * 1000000000

pub record ClientOptions (S : Type 0) : Type 0 where
  pub protocol : Protocol
  pub keep_alive : Option ℕ
  pub clean_session : Bool
  pub client_id : Option Text
  pub last_will : Option LastWill
  pub username : Option Text
  pub password : Option Text
  pub reconnect : ReconnectMethod
  pub incomming_store : Option S
  pub outgoing_store : Option S

abbrev named_again : Result Errors.Error TopicPath → Result Errors.Error TopicPath
named_again (err e) = err e
named_again (ok name) = to_topic_name (topic_path name)

abbrev keep_alive_secs : Option ℕ → ℕ
keep_alive_secs (some dur) = dur / 1000000000 % 2 ^ 16
keep_alive_secs none = 0

module _ {S : Type 0} where
  unfoldable pub new : ClientOptions S
  new = record {
    protocol = mqtt 4;
    keep_alive = some (seconds 30);
    clean_session = true;
    client_id = none;
    last_will = none;
    username = none;
    password = none;
    reconnect = forever_disconnect;
    incomming_store = none;
    outgoing_store = none;
  }

  unfoldable pub set_keep_alive : ℕ → ClientOptions S → ClientOptions S
  set_keep_alive secs o = record o { keep_alive = some (seconds secs) }

  unfoldable pub set_protocol : Protocol → ClientOptions S → ClientOptions S
  set_protocol p o = record o { protocol = p }

  unfoldable pub set_client_id : Text → ClientOptions S → ClientOptions S
  set_client_id id o = record o { client_id = some id }

  unfoldable pub set_clean_session : Bool → ClientOptions S → ClientOptions S
  set_clean_session b o = record o { clean_session = b }

  unfoldable pub set_incomming_store : S → ClientOptions S → ClientOptions S
  set_incomming_store s o = record o { incomming_store = some s }

  unfoldable pub set_outgoing_store : S → ClientOptions S → ClientOptions S
  set_outgoing_store s o = record o { outgoing_store = some s }

  unfoldable pub set_username : Text → ClientOptions S → ClientOptions S
  set_username t o = record o { username = some t }

  unfoldable pub set_password : Text → ClientOptions S → ClientOptions S
  set_password t o = record o { password = some t }

  unfoldable pub set_last_will_opt : Option LastWill → ClientOptions S → ClientOptions S
  set_last_will_opt w o = record o { last_will = w }

  unfoldable pub set_reconnect : ReconnectMethod → ClientOptions S → ClientOptions S
  set_reconnect r o = record o { reconnect = r }

  abbrev with_will :
      Text
      → PubOpt
      → ClientOptions S
      → Result Errors.Error TopicPath
      → Result Error (ClientOptions S)
  with_will message pub_opt o (err e) = err (from_mqtt e)
  with_will message pub_opt o (ok name) = ok (record o {
    last_will = some (record {
      topic = name.path;
      message = message;
      qos = PubOpt.qos pub_opt;
      retain = PubOpt.is_retain pub_opt;
    });
  })

  -- The topic name is made twice, the second time of the first one.
  unfoldable pub set_last_will :
      ToTopicPath → Text → PubOpt → ClientOptions S → Result Error (ClientOptions S)
  unfolding to_topic_name PubOpt.qos PubOpt.is_retain from_mqtt
  set_last_will topic message pub_opt o =
      with_will message pub_opt o (named_again (to_topic_name topic))

  -- `client_id.clone().unwrap()` panics on `none`.
  unfoldable pub generate_connect_packet : ClientOptions S → Option Connect
  generate_connect_packet o = elim o.client_id [
    | none ↦ none
    | some id ↦ some (record {
      protocol = o.protocol;
      keep_alive = keep_alive_secs o.keep_alive;
      client_id = id;
      clean_session = o.clean_session;
      last_will = o.last_will;
      username = o.username;
      password = o.password;
    })
  ]
