-- ===== src/Mqtt3/Topic/Paths/Split.antt =====
-- `str::split` against joining the pieces.
use rust_mq.Base.{
  ℕ, ◌==◌, ◌≡◌, refl, ap, ◌∙◌, true, false, List, [], ◌∷◌, ◌++◌, All, arith, Bool-cases, inl, inr,
  append-nil,
}
use rust_mq.Mqtt3.Bytes.{Text}
use rust_mq.Mqtt3.Topic.{contains, push_front, split}

abbrev pub IsFree : ℕ → Text → Type 0
IsFree c t = contains c t ≡ false

-- The pieces behind the first one, each with the delimiter before it.
abbrev pub joined : ℕ → List Text → Text
joined c [] = []
joined c (t ∷ ts) = c ∷ t ++ joined c ts

abbrev pub join : ℕ → List Text → Text
join c [] = []
join c (t ∷ ts) = t ++ joined c ts

join-push_front : (c b : ℕ) (ts : List Text) → join c (push_front b ts) ≡ b ∷ join c ts
join-push_front c b [] = refl
join-push_front c b (t ∷ ts) = refl

-- There is a piece at least.
abbrev pub IsCons : List Text → Type 0
IsCons [] = ⊥
IsCons (t ∷ ts) = Unit

push_front-IsCons : (b : ℕ) (ts : List Text) → IsCons (push_front b ts)
push_front-IsCons b [] = tt
push_front-IsCons b (t ∷ ts) = tt

pub split-IsCons : (c : ℕ) (s : Text) → IsCons (split c s)
unfolding split
split-IsCons c [] = tt
split-IsCons c (b ∷ s) = elim (Bool-cases (b == c)) [
  | inl e ↦ rw e tt
  | inr e ↦ rw e (push_front-IsCons b (split c s))
]

joined-IsCons : (c : ℕ) (ts : List Text) → IsCons ts → joined c ts ≡ c ∷ join c ts
joined-IsCons c [] h = absurd h
joined-IsCons c (t ∷ ts) h = refl

same : (b c : ℕ) → (b == c) ≡ true → b ≡ c
same b c e = ground arith

pub join-split : (c : ℕ) (s : Text) → join c (split c s) ≡ s
unfolding split
join-split c [] = refl
join-split c (b ∷ s) = elim (Bool-cases (b == c)) [
  | inl e ↦
      rw e (joined-IsCons c (split c s) (split-IsCons c s) ∙ rw (join-split c s, same b c e) refl)
  | inr e ↦ rw e (join-push_front c b (split c s) ∙ ap (◌∷◌ b) (join-split c s))
]

push_front-IsFree :
    (c b : ℕ) (ts : List Text)
    → (b == c) ≡ false
    → All (IsFree c) ts
    → All (IsFree c) (push_front b ts)
unfolding contains
push_front-IsFree c b [] e h = (rw e refl, tt)
push_front-IsFree c b (t ∷ ts) e h = (rw (e, h.0), h.1)

pub split-IsFree : (c : ℕ) (s : Text) → All (IsFree c) (split c s)
unfolding split contains
split-IsFree c [] = (refl, tt)
split-IsFree c (b ∷ s) = elim (Bool-cases (b == c)) [
  | inl e ↦ rw e (refl, split-IsFree c s)
  | inr e ↦ rw e (push_front-IsFree c b (split c s) e (split-IsFree c s))
]

split-free_last : (c : ℕ) (t : Text) → IsFree c t → split c t ≡ t ∷ []
unfolding split contains
split-free_last c [] h = refl
split-free_last c (b ∷ t) h = ground (arith, split-free_last c t)

split-free_next : (c : ℕ) (t s : Text) → IsFree c t → split c (t ++ c ∷ s) ≡ t ∷ split c s
unfolding split contains
split-free_next c [] s h = ground arith
split-free_next c (b ∷ t) s h = ground (arith, split-free_next c t s)

pub split-join :
    (c : ℕ) (t : Text) (ts : List Text)
    → All (IsFree c) (t ∷ ts)
    → split c (join c (t ∷ ts)) ≡ t ∷ ts
split-join c t [] h = rw append-nil (split-free_last c t h.0)
split-join c t (u ∷ us) h =
    split-free_next c t (join c (u ∷ us)) h.0 ∙ ap (◌∷◌ t) (split-join c u us h.1)
