-- ===== src/Command/Publish.antt =====
-- `PublishCommand` of src/client/command/publish.rs, and how src/client/cli.rs makes it of the
-- arguments.
pub mod Run
pub mod Parsed
pub mod Delivered
pub mod Acknowledged
pub mod Ends
use Prim.Native.String.{String}
use rust_mq.Base.{ℕ, Bool, true, false, not, ◌&&◌, List, [], ◌∷◌, Option, none, some, if◌then◌else◌}
use rust_mq.Outcome.{Result, ok, err, Action, ◌>>=◌, ◌>>◌, pure, fail}
use rust_mq.Mqtt3.Bytes.{Text, codes}
use rust_mq.Mqtt3.Protocol.{Protocol, mqtt}
use rust_mq.Mqtt3.Qos.{Qos, at_least_once}
use rust_mq.Command.Getopts.{Opt, optopt, optflag, Matches, Parser, is_some}
use rust_mq.Command.Tls.{Openssl, ssl_context}
use rust_mq.Command.Settings.{
  CliError, getopts_error, topic_missing, message_and_file, Exit, usage_shown, cli_error, unwrap_or,
  port_of, keep_alive_of, protocol_of, ssl_method_of, qos_or, parse_qos,
}

-- `C` is a context of TLS.
pub record PublishCommand (C : Type 0) : Type 0 where
  pub topic : Text
  pub message : Option Text
  pub file : Option Text
  pub qos : Qos
  pub retain : Bool
  pub address : Text
  pub port : ℕ
  pub keep_alive : ℕ
  pub debug : Bool
  pub protocol : Protocol
  pub client_id : Option Text
  pub username : Option Text
  pub password : Option Text
  pub ssl_context : Option C

unfoldable pub default : {C : Type 0} → PublishCommand C
default = record {
  topic = codes "nodefault";
  message = none;
  file = none;
  qos = at_least_once;
  retain = false;
  address = codes "localhost";
  port = 1883;
  keep_alive = 30;
  debug = true;
  protocol = mqtt 4;
  client_id = none;
  username = none;
  password = none;
  ssl_context = none;
}

-- The options that `publish_parse` declares.
unfoldable pub opts : List Opt
opts =
    optopt "t" ""
    ∷ optopt "m" ""
    ∷ optopt "f" ""
    ∷ optopt "q" ""
    ∷ optflag "r" ""
    ∷ optopt "a" ""
    ∷ optopt "p" ""
    ∷ optopt "k" ""
    ∷ optopt "i" ""
    ∷ optopt "u" ""
    ∷ optopt "P" ""
    ∷ optopt "v" ""
    ∷ optflag "d" ""
    ∷ optopt "" "tls"
    ∷ optopt "" "cafile"
    ∷ optopt "" "key"
    ∷ optopt "" "cert"
    ∷ optflag "" "no-verify"
    ∷ optflag "h" "help"
    ∷ []

module _ {W C : Type 0} (ssl : Openssl W C) where
  abbrev topic_of : Option Text → Action Exit W Text
  topic_of none = fail (cli_error topic_missing)
  topic_of (some topic) = pure topic

  -- Shouldn't set both message and file.
  abbrev one_payload : Option Text → Option Text → Action Exit W (Unit {0})
  one_payload message file =
      if is_some message && is_some file then fail (cli_error message_and_file) else pure tt

  -- `publish_parse`, after the arguments have matched.
  unfoldable pub publish_of : Matches → Action Exit W (PublishCommand C)
  unfolding default port_of keep_alive_of protocol_of ssl_method_of ssl_context qos_or parse_qos
  publish_of m = do
    topic ← topic_of (m.opt_str "t")
    let message = m.opt_str "m"
    let file = m.opt_str "f"
    one_payload message file
    qos ← qos_or (m.opt_str "q") at_least_once
    port ← port_of m (default {C = C}).port
    keep_alive ← keep_alive_of m (default {C = C}).keep_alive
    protocol ← protocol_of m (default {C = C}).protocol
    method ← ssl_method_of m
    context ←
        ssl_context ssl (not (m.opt_present "no-verify")) (m.opt_str "cafile") (m.opt_str "key")
          (m.opt_str "cert") method
    pure (record {
      topic = topic;
      message = message;
      file = file;
      qos = qos;
      retain = m.opt_present "r";
      address = unwrap_or (m.opt_str "a") (default {C = C}).address;
      port = port;
      keep_alive = keep_alive;
      debug = m.opt_present "d";
      protocol = protocol;
      client_id = m.opt_str "i";
      username = m.opt_str "u";
      password = m.opt_str "P";
      ssl_context = context;
    })

  abbrev unless_help : Result Text Matches → Action Exit W (PublishCommand C)
  unless_help (err f) = fail (cli_error (getopts_error f))
  unless_help (ok m) = if m.opt_present "h" then fail usage_shown else publish_of m

  unfoldable pub publish_parse : Parser → List Text → Action Exit W (PublishCommand C)
  unfolding publish_of opts
  publish_parse parse arguments = unless_help (parse opts arguments)
