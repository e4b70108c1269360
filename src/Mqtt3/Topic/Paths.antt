-- ===== src/Mqtt3/Topic/Paths.antt =====
-- `TopicPath::from_str` against joining levels with '/'.
pub mod Split
use rust_mq.Base.{
  ℕ, suc, ◌<◌, ◌==◌, ◌≡◌, ◌↔◌, refl, sym, ap, ◌∙◌, Bool, true, false, not, ◌&&◌, ◌||◌, List, [],
  ◌∷◌, ◌++◌, map, length, All, arith, bytes_eq, bytes_eq_iff, if◌then◌else◌, Bool-cases, inl, inr,
}
use rust_mq.Outcome.{Result, ok, err, Result-cases}
use rust_mq.Mqtt3.Bytes.{Text}
use rust_mq.Mqtt3.Errors.{Error, topic_name_must_not_contain_wildcard}
use rust_mq.Mqtt3.Topic.{
  Topic, normal, system, blank, single_wildcard, multi_wildcard, TopicPath, delimiter, plus, hash,
  dollar, into_string, contains, validate, is_wildcard, starts_with, split, topic_of, keeps_valid,
  every, any, from_str, ToTopicPath, text, to_topic_path, to_topic_name,
}
use rust_mq.Mqtt3.Topic.Paths.Split.{
  join, joined, join-split, split-IsFree, split-join, IsFree, IsCons, split-IsCons,
}

-- A level as a topic path holds it.
abbrev pub IsLevel : Topic → Type 0
IsLevel (normal s) =
    IsFree delimiter s
    × IsFree plus s
    × IsFree hash s
    × (0 < length s)
    × (starts_with dollar s ≡ false)
IsLevel (system s) =
    IsFree delimiter s × IsFree plus s × IsFree hash s × (starts_with dollar s ≡ true)
IsLevel _ = Unit

free-not_alone : (c : ℕ) (s : Text) → IsFree c s → bytes_eq s (c ∷ []) ≡ false
unfolding contains bytes_eq
free-not_alone c [] h = refl
free-not_alone c (b ∷ s) h = ground arith

not_empty : (s : Text) → 0 < length s → bytes_eq s [] ≡ false
unfolding bytes_eq
not_empty [] h = absurd (omega arith)
not_empty (b ∷ s) h = refl

length_pos : (s : Text) → bytes_eq s [] ≡ false → 0 < length s
unfolding bytes_eq
length_pos [] h = ground arith
length_pos (b ∷ s) h = omega arith

starts-not_empty : (c : ℕ) (s : Text) → starts_with c s ≡ true → bytes_eq s [] ≡ false
unfolding bytes_eq
starts-not_empty c [] h = ground arith
starts-not_empty c (b ∷ s) h = refl

both : (a b : Bool) → a && b ≡ true → (a ≡ true) × (b ≡ true)
both a b h = ground arith

neither_of : (a b : Bool) → (a || b) ≡ false → (a ≡ false) × (b ≡ false)
neither_of a b h = ground arith

neither : (a b : Bool) → not (a || b) ≡ true → (a ≡ false) × (b ≡ false)
neither a b h = ground arith

topic_of-IsLevel :
    (t : Text)
    → IsFree delimiter t
    → keeps_valid t ≡ true
    → IsLevel (topic_of t) × (into_string (topic_of t) ≡ t)
unfolding topic_of keeps_valid into_string validate
topic_of-IsLevel t free valid = elim (Bool-cases (bytes_eq t (plus ∷ []))) [
  | inl e ↦ rw e (tt, sym ((bytes_eq_iff t (plus ∷ [])).0 e))
  | inr no_plus ↦ elim (Bool-cases (bytes_eq t (hash ∷ []))) [
    | inl e ↦ rw (no_plus, e) (tt, sym ((bytes_eq_iff t (hash ∷ [])).0 e))
    | inr no_hash ↦ elim (Bool-cases (bytes_eq t [])) [
      | inl e ↦ rw (no_plus, no_hash, e) (tt, sym ((bytes_eq_iff t []).0 e))
      | inr full ↦
          let (p, h) =
            neither (contains plus t) (contains hash t) (rw (no_plus, no_hash, full) at valid) in
          elim (Bool-cases (starts_with dollar t)) [
            | inl e ↦ rw (no_plus, no_hash, full, e) ((free, p, h, e), refl)
            | inr e ↦ rw (no_plus, no_hash, full, e) ((free, p, h, length_pos t full, e), refl)
          ]
    ]
  ]
]

IsLevel-topic_of :
    (x : Topic)
    → IsLevel x
    → (topic_of (into_string x) ≡ x)
      × (keeps_valid (into_string x) ≡ true)
      × IsFree delimiter (into_string x)
unfolding topic_of keeps_valid into_string contains validate
IsLevel-topic_of (normal s) (free, p, h, pos, d) =
    rw (free-not_alone plus s p, free-not_alone hash s h, not_empty s pos, d, p, h)
      (refl, refl, free)
IsLevel-topic_of (system s) (free, p, h, d) =
    rw (free-not_alone plus s p, free-not_alone hash s h, starts-not_empty dollar s d, d, p, h)
      (refl, refl, free)
IsLevel-topic_of blank h = (refl, refl, refl)
IsLevel-topic_of single_wildcard h = (refl, refl, refl)
IsLevel-topic_of multi_wildcard h = (refl, refl, refl)

levels :
    (ts : List Text)
    → All (IsFree delimiter) ts
    → every keeps_valid ts ≡ true
    → All IsLevel (map topic_of ts) × (map into_string (map topic_of ts) ≡ ts)
levels [] free valid = (tt, refl)
levels (t ∷ ts) free valid =
    let (v, vs) = both (keeps_valid t) (every keeps_valid ts) valid in
    let (l, e) = topic_of-IsLevel t free.0 v in
    let (ls, es) = levels ts free.1 vs in ((l, ls), rw (e, es) refl)

strings :
    (xs : List Topic)
    → All IsLevel xs
    → (map topic_of (map into_string xs) ≡ xs)
      × (every keeps_valid (map into_string xs) ≡ true)
      × All (IsFree delimiter) (map into_string xs)
strings [] h = (refl, refl, tt)
strings (x ∷ xs) h =
    let (t, v, f) = IsLevel-topic_of x h.0 in
    let (ts, vs, fs) = strings xs h.1 in (rw (t, ts) refl, rw (v, vs) refl, (f, fs))

-- A topic path as the code holds it: its levels, which are one at least, joined with '/', and the
-- flag for a wildcard among them.
pub record IsPath (p : TopicPath) : Type 0 where
  pub levels_IsLevel : All IsLevel p.topics
  pub some_level : 0 < length p.topics
  pub joined_path : join delimiter (map into_string p.topics) ≡ p.path
  pub flag : p.wildcards ≡ any is_wildcard p.topics

map_pos : (ts : List Text) → IsCons ts → 0 < length (map topic_of ts)
map_pos [] h = absurd h
map_pos (t ∷ ts) h = omega arith

abbrev Parsed : Text → Result Error TopicPath → Type 0
Parsed s (ok p) = (p.path ≡ s) × IsPath p
Parsed s (err e) = Unit

split_pos : (c : ℕ) (s : Text) → 0 < length (map topic_of (split c s))
split_pos c s = map_pos (split c s) (split-IsCons c s)

from_str-Parsed : (s : Text) → Parsed s (from_str s)
unfolding from_str
from_str-Parsed s = elim (Bool-cases (every keeps_valid (split delimiter s))) [
  | inr e ↦ rw e tt
  | inl e ↦
      let (ls, es) = levels (split delimiter s) (split-IsFree delimiter s) e in
      rw e (
        refl,
        record {
          levels_IsLevel = ls;
          some_level = split_pos delimiter s;
          joined_path = rw es (join-split delimiter s);
          flag = refl;
        },
      )
]

pub from_str→IsPath : (s : Text) (p : TopicPath) → from_str s ≡ ok p → (p.path ≡ s) × IsPath p
from_str→IsPath s p e = rw e at (from_str-Parsed s)

split-levels :
    (xs : List Topic)
    → 0 < length xs
    → All IsLevel xs
    → split delimiter (join delimiter (map into_string xs)) ≡ map into_string xs
split-levels [] pos h = absurd (omega arith)
split-levels (x ∷ xs) pos h =
    let (_, _, free) = strings (x ∷ xs) h in
    split-join delimiter (into_string x) (map into_string xs) free

pub IsPath→from_str : (p : TopicPath) → IsPath p → from_str p.path ≡ ok p
unfolding from_str
IsPath→from_str p h =
    let pieces : split delimiter p.path ≡ map into_string p.topics =
      rw (← h.joined_path) (split-levels p.topics h.some_level h.levels_IsLevel) in
    let (topics, valid, _) = strings p.topics h.levels_IsLevel in
    rw (pieces, valid, topics, ← h.flag) refl

-- Parsing a text as a topic path gives exactly the paths whose levels, joined with '/', are that
-- text: each level is a wildcard that stands alone, blank, or free of '/', '+' and '#', and a level
-- is a system level if it begins with '$'.
pub from_str-IsPath : (s : Text) (p : TopicPath) → (from_str s ≡ ok p) ↔ ((p.path ≡ s) × IsPath p)
from_str-IsPath s p = (from_str→IsPath s p, λ h. rw (← h.0) (IsPath→from_str p h.1))

abbrev pub IsName : Topic → Type 0
IsName x = is_wildcard x ≡ false

pub any-All : (xs : List Topic) → any is_wildcard xs ≡ false → All IsName xs
any-All [] h = tt
any-All (x ∷ xs) h =
    let (a, b) = neither_of (is_wildcard x) (any is_wildcard xs) h in (a, any-All xs b)

pub All-any : (xs : List Topic) → All IsName xs → any is_wildcard xs ≡ false
All-any [] h = refl
All-any (x ∷ xs) h = rw (h.0, All-any xs h.1) refl

abbrev Named : Text → Result Error TopicPath → Type 0
Named s (ok p) = (p.path ≡ s) × IsPath p × All IsName p.topics
Named s (err e) = Unit

unless_flag :
    (s : Text) (p : TopicPath)
    → p.path ≡ s
    → IsPath p
    → (w : Bool) → p.wildcards ≡ w
    → Named s (if w then err topic_name_must_not_contain_wildcard else ok p)
unless_flag s p same path true e = tt
unless_flag s p same path false e = (same, path, any-All p.topics (sym path.flag ∙ e))

to_topic_name-Named : (s : Text) → Named s (to_topic_name (text s))
unfolding to_topic_name to_topic_path
to_topic_name-Named s = elim (Result-cases (from_str s)) [
  | inr (x, e) ↦ rw e tt
  | inl (p, e) ↦
      let (same, path) = from_str→IsPath s p e in rw e (unless_flag s p same path p.wildcards refl)
]

-- A text is a topic name exactly if it is a topic path none of whose levels is a wildcard.
pub to_topic_name-IsName :
    (s : Text) (p : TopicPath)
    → (to_topic_name (text s) ≡ ok p) ↔ ((p.path ≡ s) × IsPath p × All IsName p.topics)
unfolding to_topic_name to_topic_path
to_topic_name-IsName s p = (
  λ e. rw e at (to_topic_name-Named s),
  λ h. rw (← h.0) (rw (IsPath→from_str p h.1, h.1.flag, All-any p.topics h.2) refl),
)
