-- ===== src/Command/Subscribe.antt =====
-- `SubscribeCommand` of src/client/command/subscribe.rs, and how src/client/cli.rs makes it of the
-- arguments.
pub mod Run
pub mod Parsed
pub mod Received
pub mod Broken
use Prim.Native.String.{String}
use rust_mq.Base.{
  ℕ, Bool, true, false, not, ◌&&◌, ◌||◌, List, [], ◌∷◌, map, Option, none, some, if◌then◌else◌,
}
use rust_mq.Outcome.{Result, ok, err, Action, ◌>>=◌, ◌>>◌, pure, fail}
use rust_mq.Mqtt3.Bytes.{Text, codes}
use rust_mq.Mqtt3.Protocol.{Protocol, mqtt}
use rust_mq.Mqtt3.Qos.{Qos, at_most_once, exactly_once}
use rust_mq.Mqtt3.Packet.{LastWill, SubscribeTopic}
use rust_mq.Command.Getopts.{Opt, optopt, optflag, Matches, Parser, is_some}
use rust_mq.Command.Tls.{Openssl, ssl_context}
use rust_mq.Command.Settings.{
  CliError, getopts_error, will_incomplete, Exit, usage_shown, cli_error, unwrap_or, port_of,
  keep_alive_of, protocol_of, ssl_method_of, qos_or, parse_qos,
}

pub record SubscribeCommand (C : Type 0) : Type 0 where
  pub topics : List SubscribeTopic
  pub address : Text
  pub port : ℕ
  pub clean_session : Bool
  pub last_will : Option LastWill
  pub keep_alive : ℕ
  pub log_file : Option Text
  pub debug : Bool
  pub reconnect : Bool
  pub protocol : Protocol
  pub silence : Bool
  pub client_id : Option Text
  pub username : Option Text
  pub password : Option Text
  pub limit : Option ℕ
  pub retain : Bool
  pub topic_filters : List Text
  pub ssl_context : Option C

unfoldable pub default : {C : Type 0} → SubscribeCommand C
default = record {
  topics = record { topic_path = codes "#"; qos = exactly_once } ∷ [];
  address = codes "localhost";
  port = 1883;
  clean_session = true;
  last_will = none;
  keep_alive = 30;
  log_file = none;
  debug = true;
  reconnect = false;
  protocol = mqtt 4;
  silence = false;
  client_id = none;
  username = none;
  password = none;
  limit = none;
  retain = false;
  topic_filters = [];
  ssl_context = none;
}

-- The options that `subscribe_parse` declares: `will-retain` is one that takes an argument.
unfoldable pub opts : List Opt
opts =
    optopt "a" ""
    ∷ optopt "p" ""
    ∷ optopt "q" ""
    ∷ optopt "k" ""
    ∷ optflag "r" ""
    ∷ optopt "i" ""
    ∷ optopt "u" ""
    ∷ optopt "P" ""
    ∷ optopt "v" ""
    ∷ optflag "c" ""
    ∷ optflag "d" ""
    ∷ optflag "s" ""
    ∷ optopt "" "will-message"
    ∷ optopt "" "will-topic"
    ∷ optopt "" "will-qos"
    ∷ optopt "" "will-retain"
    ∷ optopt "" "tls"
    ∷ optopt "" "cafile"
    ∷ optopt "" "key"
    ∷ optopt "" "cert"
    ∷ optflag "" "no-verify"
    ∷ optflag "h" "help"
    ∷ []

-- The topics of the arguments, or those of the default, all with one QoS.
unfoldable pub topics_of : List Text → List SubscribeTopic → Qos → List SubscribeTopic
topics_of [] defaults qos = map (λ t. record { topic_path = t.topic_path; qos = qos }) defaults
topics_of (topic ∷ free) defaults qos =
    map (λ topic. record { topic_path = topic; qos = qos }) (topic ∷ free)

module _ {W : Type 0} where
  -- The last will. The test for an incomplete one asks for `will_topic` twice.
  unfoldable pub last_will_of :
      Option Text → Option Text → Option Text → Bool → Action Exit W (Option LastWill)
  unfolding qos_or parse_qos
  last_will_of (some topic) (some message) will_qos will_retain = do
    qos ← qos_or will_qos at_most_once
    pure (some (record { topic = topic; message = message; qos = qos; retain = will_retain }))
  last_will_of will_topic _ will_qos will_retain =
      if is_some will_topic || is_some will_topic
      then fail (cli_error will_incomplete)
      else pure none

module _ {W C : Type 0} (ssl : Openssl W C) where
  -- `subscribe_parse`, after the arguments have matched.
  unfoldable pub subscribe_of : Matches → Action Exit W (SubscribeCommand C)
  unfolding default port_of keep_alive_of protocol_of ssl_method_of ssl_context last_will_of
      topics_of qos_or parse_qos
  subscribe_of m = do
    port ← port_of m (default {C = C}).port
    keep_alive ← keep_alive_of m (default {C = C}).keep_alive
    protocol ← protocol_of m (default {C = C}).protocol
    last_will ←
        last_will_of (m.opt_str "will-topic") (m.opt_str "will-message") (m.opt_str "will-qos")
          (m.opt_present "will-retain")
    method ← ssl_method_of m
    context ←
        ssl_context ssl (not (m.opt_present "no-verify")) (m.opt_str "cafile") (m.opt_str "key")
          (m.opt_str "cert") method
    qos ← qos_or (m.opt_str "q") exactly_once
    pure (record {
      topics = topics_of m.free (default {C = C}).topics qos;
      address = unwrap_or (m.opt_str "a") (default {C = C}).address;
      port = port;
      clean_session = m.opt_present "c";
      last_will = last_will;
      keep_alive = keep_alive;
      log_file = none;
      debug = m.opt_present "d";
      reconnect = m.opt_present "r";
      protocol = protocol;
      silence = m.opt_present "s";
      client_id = m.opt_str "i";
      username = m.opt_str "u";
      password = m.opt_str "P";
      limit = none;
      retain = false;
      topic_filters = [];
      ssl_context = context;
    })

  abbrev unless_help : Result Text Matches → Action Exit W (SubscribeCommand C)
  unless_help (err f) = fail (cli_error (getopts_error f))
  unless_help (ok m) = if m.opt_present "h" then fail usage_shown else subscribe_of m

  unfoldable pub subscribe_parse : Parser → List Text → Action Exit W (SubscribeCommand C)
  unfolding subscribe_of opts
  subscribe_parse parse arguments = unless_help (parse opts arguments)
