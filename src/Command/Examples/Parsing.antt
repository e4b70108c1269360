-- ===== src/Command/Examples/Parsing.antt =====
-- Command lines of mqttc and what is made of them.
use Prim.Native.String.{String}
use text.Mathlib.Text as Text
use rust_mq.Base.{
  ◌≡◌, ◌↔◌, refl, true, false, List, [], ◌∷◌, Option, none, some, if◌then◌else◌, bytes_eq,
}
use rust_mq.Outcome.{ok, done}
use rust_mq.Mqtt3.Bytes.{Text, codes}
use rust_mq.Mqtt3.Qos.{exactly_once}
use rust_mq.Mqtt3.Protocol.{mqtt}
use rust_mq.Command.Numbers.{parse_unsigned}
use rust_mq.Command.Getopts.{Matches, Parser, is_some}
use rust_mq.Command.Tls.{Openssl}
use rust_mq.Command.Publish.{PublishCommand}
use rust_mq.Command.Publish
use rust_mq.Command.Publish.Parsed.{publish_parse-Describes}
use rust_mq.Command.Publish.Parsed.{Describes as DescribesPublish}
use rust_mq.Command.Subscribe.{SubscribeCommand}
use rust_mq.Command.Subscribe
use rust_mq.Command.Subscribe.Parsed.{subscribe_parse-Describes}
use rust_mq.Command.Subscribe.Parsed.{Describes as DescribesSubscribe}
use rust_mq.Command.Examples.{parsed_publish}

abbrev value_in : List (String × Text) → String → Option Text
value_in [] name = none
value_in ((option, value) ∷ rest) name =
    if Text.◌==◌ option name then some value else value_in rest name

-- A parser that finds these values, whatever the arguments are.
abbrev found : List (String × Text) → Matches
found values = record {
  opt_present = λ name. is_some (value_in values name);
  opt_str = value_in values;
  free = [];
}

abbrev finding : List (String × Text) → Parser
finding values opts arguments = ok (found values)

abbrev no_openssl : Openssl (Unit {0}) (Unit {0})
no_openssl = record {
  new = λ method w. none;
  set_verify = λ verify context. context;
  set_ca_file = λ path context w. none;
  set_private_key_file = λ path context w. none;
  set_certificate_file = λ path context w. none;
}

abbrev published_values : List (String × Text)
published_values =
    ("t", codes "a/b") ∷ ("m", codes "hello") ∷ ("p", codes "8883") ∷ ("v", codes "3.1.1") ∷ []

publish_parse_test :
    Publish.publish_parse no_openssl (finding published_values) [] tt ≡ done parsed_publish tt
unfolding Publish.publish_parse bytes_eq parse_unsigned
publish_parse_test = refl

publish_parse-Describes_example :
    (Publish.publish_parse no_openssl (finding published_values) [] tt ≡ done parsed_publish tt)
    ↔ DescribesPublish no_openssl (found published_values) parsed_publish tt tt
publish_parse-Describes_example =
    publish_parse-Describes no_openssl (finding published_values) [] (found published_values)
      parsed_publish tt tt refl (refl, refl, refl, refl)

-- A last will of which only the message is given: it is no error, and there is no will.
abbrev subscribed_values : List (String × Text)
subscribed_values = ("will-message", codes "gone") ∷ ("k", codes "10") ∷ ("r", []) ∷ []

abbrev parsed_subscribe : SubscribeCommand (Unit {0})
parsed_subscribe = record {
  topics = record { topic_path = codes "#"; qos = exactly_once } ∷ [];
  address = codes "localhost";
  port = 1883;
  clean_session = false;
  last_will = none;
  keep_alive = 10;
  log_file = none;
  debug = false;
  reconnect = true;
  protocol = mqtt 4;
  silence = false;
  client_id = none;
  username = none;
  password = none;
  limit = none;
  retain = false;
  topic_filters = [];
  ssl_context = none;
}

subscribe_parse_test :
    Subscribe.subscribe_parse no_openssl (finding subscribed_values) [] tt
    ≡ done parsed_subscribe tt
unfolding Subscribe.subscribe_parse bytes_eq parse_unsigned
subscribe_parse_test = refl

subscribe_parse-Describes_example :
    (Subscribe.subscribe_parse no_openssl (finding subscribed_values) [] tt
      ≡ done parsed_subscribe tt)
    ↔ DescribesSubscribe no_openssl (found subscribed_values) parsed_subscribe tt tt
subscribe_parse-Describes_example =
    subscribe_parse-Describes no_openssl (finding subscribed_values) [] (found subscribed_values)
      parsed_subscribe tt tt refl (refl, refl, refl, refl)
