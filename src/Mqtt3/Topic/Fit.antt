-- ===== src/Mqtt3/Topic/Fit.antt =====
-- `Topic::fit` against the levels of a topic name that a filter's level matches.
use rust_mq.Base.{◌≡◌, refl, ◌↔◌, true, arith, bytes_eq_iff, bytes_eq_self}
use rust_mq.Mqtt3.Bytes.{Text}
use rust_mq.Mqtt3.Topic.{Topic, normal, system, blank, single_wildcard, multi_wildcard, fit}

-- The levels of a topic name: a wildcard stands for every level but the system ones.
pub data Matches : Topic → Topic → Type 0 where
  same_name : (s : Text) → Matches (normal s) (normal s)
  same_system : (s : Text) → Matches (system s) (system s)
  same_blank : Matches blank blank
  single_name : (s : Text) → Matches single_wildcard (normal s)
  single_blank : Matches single_wildcard blank
  multi_name : (s : Text) → Matches multi_wildcard (normal s)
  multi_blank : Matches multi_wildcard blank

abbrev Overlap : Topic → Topic → Type 0
Overlap a b = (level : Topic) × Matches a level × Matches b level

fit→Overlap : (a b : Topic) → fit a b ≡ true → Overlap a b
unfolding fit
fit→Overlap (normal str) (normal s) e =
    rw ((bytes_eq_iff str s).0 e) (normal s, same_name s, same_name s)
fit→Overlap (normal str) single_wildcard e = (normal str, same_name str, single_name str)
fit→Overlap (normal str) multi_wildcard e = (normal str, same_name str, multi_name str)
fit→Overlap (system str) (system s) e =
    rw ((bytes_eq_iff str s).0 e) (system s, same_system s, same_system s)
fit→Overlap blank blank e = (blank, same_blank, same_blank)
fit→Overlap blank single_wildcard e = (blank, same_blank, single_blank)
fit→Overlap blank multi_wildcard e = (blank, same_blank, multi_blank)
fit→Overlap single_wildcard (normal s) e = (normal s, single_name s, same_name s)
fit→Overlap single_wildcard blank e = (blank, single_blank, same_blank)
fit→Overlap single_wildcard single_wildcard e = (blank, single_blank, single_blank)
fit→Overlap single_wildcard multi_wildcard e = (blank, single_blank, multi_blank)
fit→Overlap multi_wildcard (normal s) e = (normal s, multi_name s, same_name s)
fit→Overlap multi_wildcard blank e = (blank, multi_blank, same_blank)
fit→Overlap multi_wildcard single_wildcard e = (blank, multi_blank, single_blank)
fit→Overlap multi_wildcard multi_wildcard e = (blank, multi_blank, multi_blank)
fit→Overlap _ _ e = ground arith

Overlap→fit : (a b level : Topic) → Matches a level → Matches b level → fit a b ≡ true
unfolding fit
Overlap→fit _ _ _ (same_name s) (same_name _) = bytes_eq_self s
Overlap→fit _ _ _ (same_name s) (single_name _) = refl
Overlap→fit _ _ _ (same_name s) (multi_name _) = refl
Overlap→fit _ _ _ (same_system s) (same_system _) = bytes_eq_self s
Overlap→fit _ _ _ (same_blank) (same_blank) = refl
Overlap→fit _ _ _ (same_blank) (single_blank) = refl
Overlap→fit _ _ _ (same_blank) (multi_blank) = refl
Overlap→fit _ _ _ (single_name s) (same_name _) = refl
Overlap→fit _ _ _ (single_name s) (single_name _) = refl
Overlap→fit _ _ _ (single_name s) (multi_name _) = refl
Overlap→fit _ _ _ (single_blank) (same_blank) = refl
Overlap→fit _ _ _ (single_blank) (single_blank) = refl
Overlap→fit _ _ _ (single_blank) (multi_blank) = refl
Overlap→fit _ _ _ (multi_name s) (same_name _) = refl
Overlap→fit _ _ _ (multi_name s) (single_name _) = refl
Overlap→fit _ _ _ (multi_name s) (multi_name _) = refl
Overlap→fit _ _ _ (multi_blank) (same_blank) = refl
Overlap→fit _ _ _ (multi_blank) (single_blank) = refl
Overlap→fit _ _ _ (multi_blank) (multi_blank) = refl

-- Two levels fit exactly when there is a level of a topic name that both of them match.
pub fit-Matches :
    (a b : Topic) → (fit a b ≡ true) ↔ ((level : Topic) × Matches a level × Matches b level)
fit-Matches a b = (fit→Overlap a b, λ o. Overlap→fit a b o.0 o.1 o.2)
