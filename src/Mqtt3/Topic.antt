-- ===== src/Mqtt3/Topic.antt =====
-- mqtt3/src/topic.rs: topic levels, topic paths and topic names. A text is its UTF-8 bytes; the
-- characters that the code looks for ('/', '+', '#', '$') are single bytes there.
pub mod Paths
pub mod Fit
use rust_mq.Base.{
  ℕ, zero, suc, ◌-◌, ◌==◌, Bool, true, false, not, ◌&&◌, ◌||◌, List, [], ◌∷◌, map, Option, none,
  some, length, bytes_eq, if◌then◌else◌,
}
use rust_mq.Outcome.{Result, ok, err}
use rust_mq.Mqtt3.Bytes.{Text}
use rust_mq.Mqtt3.Errors.{Error, invalid_topic_path, topic_name_must_not_contain_wildcard}

pub data Topic : Type 0 where
  normal system : Text → Topic
  blank single_wildcard multi_wildcard : Topic

-- '/', '+', '#' and '$'.
abbrev pub delimiter : ℕ
delimiter = 0x2f

abbrev pub plus : ℕ
plus = 0x2b

abbrev pub hash : ℕ
hash = 0x23

abbrev pub dollar : ℕ
dollar = 0x24

-- `impl Into<String> for Topic`.
unfoldable pub into_string : Topic → Text
into_string (normal s) = s
into_string (system s) = s
into_string blank = []
into_string single_wildcard = plus ∷ []
into_string multi_wildcard = hash ∷ []

-- `str::contains` of one byte.
unfoldable pub contains : ℕ → Text → Bool
contains c [] = false
contains c (b ∷ s) = b == c || contains c s

unfoldable pub validate : Text → Bool
unfolding contains bytes_eq
validate topic =
    if bytes_eq topic (plus ∷ []) || bytes_eq topic (hash ∷ [])
    then true
    else not (contains plus topic || contains hash topic)

unfoldable pub fit : Topic → Topic → Bool
unfolding bytes_eq
fit (normal str) (normal s) = bytes_eq str s
fit (normal str) single_wildcard = true
fit (normal str) multi_wildcard = true
fit (normal str) _ = false
fit (system str) (system s) = bytes_eq str s
fit (system str) _ = false
fit blank blank = true
fit blank single_wildcard = true
fit blank multi_wildcard = true
fit blank _ = false
fit single_wildcard (system s) = false
fit single_wildcard _ = true
fit multi_wildcard (system s) = false
fit multi_wildcard _ = true

-- `PartialEq` as `is_multi` uses it.
unfoldable pub is_multi_wildcard : Topic → Bool
is_multi_wildcard multi_wildcard = true
is_multi_wildcard _ = false

unfoldable pub is_wildcard : Topic → Bool
is_wildcard single_wildcard = true
is_wildcard multi_wildcard = true
is_wildcard _ = false

pub record TopicPath : Type 0 where
  pub path : Text
  pub wildcards : Bool
  pub topics : List Topic

abbrev pub index_of : {A : Type 0} → List A → ℕ → Option A
index_of [] index = none
index_of (t ∷ ts) zero = some t
index_of (t ∷ ts) (suc index) = index_of ts index

unfoldable pub get : TopicPath → ℕ → Option Topic
get p index = index_of p.topics index

unfoldable pub len : TopicPath → ℕ
len p = length p.topics

unfoldable pub is_final : TopicPath → ℕ → Bool
is_final p index = length p.topics == 0 || length p.topics - 1 == index

abbrev is_some_multi : Option Topic → Bool
is_some_multi (some topic) = is_multi_wildcard topic
is_some_multi none = false

unfoldable pub is_multi : TopicPath → ℕ → Bool
unfolding is_multi_wildcard
is_multi p index = is_some_multi (index_of p.topics index)

abbrev pub push_front : ℕ → List Text → List Text
push_front b [] = (b ∷ []) ∷ []
push_front b (t ∷ ts) = (b ∷ t) ∷ ts

-- `str::split` at a character.
unfoldable pub split : ℕ → Text → List Text
split c [] = [] ∷ []
split c (b ∷ s) = if b == c then [] ∷ split c s else push_front b (split c s)

abbrev pub starts_with : ℕ → Text → Bool
starts_with c [] = false
starts_with c (b ∷ s) = b == c

-- The `match topic` of the closure in `from_str`.
unfoldable pub topic_of : Text → Topic
unfolding bytes_eq
topic_of topic =
    if bytes_eq topic (plus ∷ [])
    then single_wildcard
    else if bytes_eq topic (hash ∷ [])
    then multi_wildcard
    else if bytes_eq topic []
    then blank
    else if starts_with dollar topic
    then system topic
    else normal topic

-- Whether the closure leaves `valid` as it is.
unfoldable pub keeps_valid : Text → Bool
unfolding bytes_eq validate
keeps_valid topic =
    if bytes_eq topic (plus ∷ []) || (bytes_eq topic (hash ∷ []) || bytes_eq topic [])
    then true
    else validate topic

abbrev pub every : {A : Type 0} → (A → Bool) → List A → Bool
every f [] = true
every f (x ∷ xs) = f x && every f xs

abbrev pub any : {A : Type 0} → (A → Bool) → List A → Bool
any f [] = false
any f (x ∷ xs) = f x || any f xs

unfoldable pub from_str : Text → Result Error TopicPath
unfolding is_wildcard
from_str path =
    let levels = split delimiter path in
    let topics = map topic_of levels in
    if not (every keeps_valid levels)
    then err invalid_topic_path
    else ok (record { path = path; wildcards = any is_wildcard topics; topics = topics })

-- The types that are a `ToTopicPath`: `String` and `&str` hold a text.
pub data ToTopicPath : Type 0 where
  topic_path : TopicPath → ToTopicPath
  text : Text → ToTopicPath

unfoldable pub to_topic_path : ToTopicPath → Result Error TopicPath
unfolding from_str
to_topic_path (topic_path p) = ok p
to_topic_path (text s) = from_str s

abbrev without_wildcards : Result Error TopicPath → Result Error TopicPath
without_wildcards (ok topic_name) =
    if topic_name.wildcards then err topic_name_must_not_contain_wildcard else ok topic_name
without_wildcards (err e) = err e

unfoldable pub to_topic_name : ToTopicPath → Result Error TopicPath
unfolding to_topic_path
to_topic_name t = without_wildcards (to_topic_path t)
