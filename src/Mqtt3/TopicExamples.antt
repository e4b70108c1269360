-- ===== src/Mqtt3/TopicExamples.antt =====
-- The theorems about topics and messages at the topic paths of the unit tests.
use rust_mq.Base.{◌≡◌, ◌↔◌, refl, true, false, [], ◌∷◌, All, none, some, arith}
use rust_mq.Outcome.{ok, done}
use rust_mq.Mqtt3.Qos.{at_least_once}
use rust_mq.Mqtt3.Samples.{codes, sample_publish}
use rust_mq.Mqtt3.Topic.{
  Topic, normal, system, blank, single_wildcard, multi_wildcard, TopicPath, fit, from_str,
  to_topic_name, text, split, topic_of, keeps_valid, is_wildcard, validate, contains, into_string,
}
use rust_mq.Mqtt3.Topic.Fit.{Matches, fit-Matches}
use rust_mq.Mqtt3.Topic.Paths.{IsPath, IsName, from_str-IsPath, to_topic_name-IsName}
use rust_mq.Mqtt3.Message.{Message, from_pub, to_pub}
use rust_mq.Mqtt3.Message.Publishing.{HasTopicName, Carries, from_pub-to_pub, from_pub-Carries}

abbrev pub sample_path : TopicPath
sample_path = record {
  path = codes "/$SYS/test/+/#";
  wildcards = true;
  topics =
      blank ∷ system (codes "$SYS") ∷ normal (codes "test") ∷ single_wildcard ∷ multi_wildcard ∷ [];
}

topic_path_test : from_str (codes "/$SYS/test/+/#") ≡ ok sample_path
unfolding from_str split topic_of keeps_valid validate contains
topic_path_test = refl

from_str-IsPath_example :
    (from_str (codes "/$SYS/test/+/#") ≡ ok sample_path)
    ↔ ((sample_path.path ≡ codes "/$SYS/test/+/#") × IsPath sample_path)
from_str-IsPath_example = from_str-IsPath (codes "/$SYS/test/+/#") sample_path

abbrev pub plain_path : TopicPath
plain_path = record {
  path = codes "a/b";
  wildcards = false;
  topics = normal (codes "a") ∷ normal (codes "b") ∷ [];
}

to_topic_name-IsName_example :
    (to_topic_name (text (codes "a/b")) ≡ ok plain_path)
    ↔ ((plain_path.path ≡ codes "a/b") × IsPath plain_path × All IsName plain_path.topics)
to_topic_name-IsName_example = to_topic_name-IsName (codes "a/b") plain_path

fit-Matches_example :
    (fit single_wildcard (normal (codes "test")) ≡ true)
    ↔ ((level : Topic) × Matches single_wildcard level × Matches (normal (codes "test")) level)
fit-Matches_example = fit-Matches single_wildcard (normal (codes "test"))

abbrev pub sample_message : Message
sample_message = record {
  topic = plain_path;
  qos = at_least_once;
  retain = false;
  pid = some 1;
  payload = 0x80 ∷ 0x40 ∷ [];
}

sample_message-HasTopicName : HasTopicName sample_message
unfolding contains is_wildcard into_string
sample_message-HasTopicName = (
  record {
    levels_IsLevel =
        ((refl, refl, refl, omega arith, refl), ((refl, refl, refl, omega arith, refl), tt));
    some_level = omega arith;
    joined_path = refl;
    flag = refl;
  },
  (refl, (refl, tt)),
)

from_pub-to_pub_example : from_pub (to_pub sample_message none true) tt ≡ done sample_message tt
from_pub-to_pub_example =
    from_pub-to_pub {S = Unit {0}} sample_message true tt sample_message-HasTopicName

from_pub-Carries_example : Carries sample_publish tt (from_pub sample_publish tt)
from_pub-Carries_example = from_pub-Carries {S = Unit {0}} sample_publish tt
