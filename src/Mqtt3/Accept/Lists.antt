-- ===== src/Mqtt3/Accept/Lists.antt =====
-- SUBSCRIBE, SUBACK and UNSUBSCRIBE on any stream. The loops take just the bytes that the header
-- announces: the count of the remaining bytes never wraps, and the fuel is enough.
use rust_mq.Base.{
  ℕ, zero, suc, ◌+◌, ◌-◌, ◌^◌, ◌≤◌, ◌<◌, ◌≡◌, refl, sym, List, [], ◌∷◌, length, length-append, All,
  arith, Bool-cases, ◌==◌, inl, inr, ==_iff,
}
use rust_mq.Mqtt3.Bytes.{Bytes, Text, IsByte, IsShort}
use rust_mq.Mqtt3.Qos
use rust_mq.Mqtt3.Header.{Header}
use rust_mq.Mqtt3.Packet.{SubscribeTopic}
use rust_mq.Mqtt3.Read.{
  sub_usize, subscribe_loop, read_subscribe, suback_code, suback_loop, read_suback,
  unsubscribe_loop, read_unsubscribe,
}
use rust_mq.Mqtt3.Codec.Subscribe.{TopicFits, topics_bytes}
use rust_mq.Mqtt3.Codec.Unsubscribe.{names_bytes}
use rust_mq.Mqtt3.Codec.Counts.{sub_usize_exact}
use rust_mq.Mqtt3.Accept.Takes.{
  Takes, takes, Takes-bind, Takes-from_result, Takes-read_u8, Takes-read_u16,
}
use rust_mq.Mqtt3.Accept.Strings.{Takes-text}

abbrev TopicsTaken : ℕ → List SubscribeTopic → ℕ → Type 0
TopicsTaken remaining ts n = All TopicFits ts × (n ≡ length (topics_bytes ts)) × (n ≡ remaining)

Takes-topics :
    (fuel remaining : ℕ) (s : Bytes)
    → All IsByte s
    → length s < fuel
    → length s ≤ remaining
    → remaining < 2 ^ 64
    → Takes (TopicsTaken remaining) s (subscribe_loop fuel remaining s)
unfolding subscribe_loop
Takes-topics zero remaining s hs f small big = absurd (omega arith)
Takes-topics (suc fuel) remaining s hs f small big = elim (Bool-cases (remaining == 0)) [
  | inl stop ↦
      rw (stop, subscribe_loop) (takes [] refl (tt, refl, sym ((==_iff remaining 0).0 stop)))
  | inr go ↦
      rw (go, subscribe_loop)
        (Takes-bind s _ hs (Takes-text s hs) λ filter n s₁ h₁ l₁ t.
          Takes-bind s₁ _ h₁ (Takes-read_u8 s₁ h₁) λ byte k s₂ h₂ l₂ b.
            Takes-bind s₂ _ h₂
              (Takes-from_result {P = λ q z. z ≡ 0} (Qos.from_u8 byte) s₂ λ _ _. refl)
              λ q z s₃ h₃ l₃ e.
                let used : length s ≡ length filter + 3 + length s₃ =
                  omega (arith, l₁, l₂, l₃, t.2, b.1, e) in
                let left =
                  sub_usize_exact remaining (length filter + 3) (remaining - (length filter + 3))
                    (omega arith) big in
                Takes-bind s₃ _ h₃
                  (Takes-topics fuel (sub_usize remaining (length filter + 3)) s₃ h₃ (omega arith)
                    (omega arith) (omega arith))
                  λ ts m s₄ _ _ r. takes [] refl (
                    (t.0, r.0),
                    omega (
                      arith,
                      t.2,
                      b.1,
                      e,
                      r.1,
                      length-append filter (Qos.to_u8 q ∷ topics_bytes ts),
                    ),
                    omega (arith, t.2, b.1, e, r.2, left),
                  ))
]

-- The window of a body is no longer than the header says, and a length fits a `usize`.
abbrev pub Windowed : Header → Bytes → Type 0
Windowed h s = (length s ≤ h.len) × (h.len < 2 ^ 64)

pub Takes-subscribe :
    (h : Header) (s : Bytes)
    → All IsByte s
    → Windowed h s
    → Takes
        (λ u n. All TopicFits u.topics × (n ≡ length (topics_bytes u.topics) + 2) × (n ≡ h.len))
        s
        (read_subscribe h s)
unfolding read_subscribe
Takes-subscribe h s hs w = Takes-bind s _ hs (Takes-read_u16 s hs) λ pid n s₁ h₁ l₁ p.
    let left = sub_usize_exact h.len 2 (h.len - 2) (omega (arith, l₁, p.1)) w.1 in
    Takes-bind s₁ _ h₁
      (Takes-topics (suc (length s₁)) (sub_usize h.len 2) s₁ h₁ (omega arith)
        (omega (arith, l₁, p.1)) (omega arith))
      λ ts k s₂ _ _ r. takes [] refl (r.0, omega (arith, r.1, p.1), omega (arith, r.2, p.1, l₁))

Takes-codes :
    (remaining : ℕ) (s : Bytes)
    → All IsByte s
    → Takes (λ cs n. (length cs ≡ remaining) × (n ≡ remaining)) s (suback_loop remaining s)
unfolding suback_loop
Takes-codes zero s hs = takes [] refl (refl, refl)
Takes-codes (suc remaining) s hs = Takes-bind s _ hs (Takes-read_u8 s hs) λ byte n s₁ h₁ _ b.
    Takes-bind s₁ _ h₁ (Takes-from_result {P = λ _ z. z ≡ 0} (suback_code byte) s₁ λ _ _. refl)
      λ c z s₂ h₂ _ e.
        Takes-bind s₂ _ h₂ (Takes-codes remaining s₂ h₂)
          λ cs k s₃ _ _ r. takes [] refl (omega (arith, r.0), omega (arith, b.1, e, r.1))

pub Takes-suback :
    (h : Header) (s : Bytes)
    → All IsByte s
    → Windowed h s
    → Takes (λ u n. (n ≡ length u.return_codes + 2) × (n ≡ h.len)) s (read_suback h s)
unfolding read_suback
Takes-suback h s hs w = Takes-bind s _ hs (Takes-read_u16 s hs) λ pid n s₁ h₁ l₁ p.
    let left = sub_usize_exact h.len 2 (h.len - 2) (omega (arith, l₁, p.1)) w.1 in
    Takes-bind s₁ _ h₁ (Takes-codes (sub_usize h.len 2) s₁ h₁)
      λ cs k s₂ _ _ r. takes [] refl (omega (arith, r.0, r.1, p.1), omega (arith, r.1, p.1, l₁))

abbrev NamesTaken : ℕ → List Text → ℕ → Type 0
NamesTaken remaining ts n = All IsShort ts × (n ≡ length (names_bytes ts)) × (n ≡ remaining)

Takes-names :
    (fuel remaining : ℕ) (s : Bytes)
    → All IsByte s
    → length s < fuel
    → length s ≤ remaining
    → remaining < 2 ^ 64
    → Takes (NamesTaken remaining) s (unsubscribe_loop fuel remaining s)
unfolding unsubscribe_loop
Takes-names zero remaining s hs f small big = absurd (omega arith)
Takes-names (suc fuel) remaining s hs f small big = elim (Bool-cases (remaining == 0)) [
  | inl stop ↦
      rw (stop, unsubscribe_loop) (takes [] refl (tt, refl, sym ((==_iff remaining 0).0 stop)))
  | inr go ↦
      rw (go, unsubscribe_loop)
        (Takes-bind s _ hs (Takes-text s hs) λ filter n s₁ h₁ l₁ t.
          let left =
            sub_usize_exact remaining (length filter + 2) (remaining - (length filter + 2))
              (omega (arith, l₁, t.2)) big in
          Takes-bind s₁ _ h₁
            (Takes-names fuel (sub_usize remaining (length filter + 2)) s₁ h₁
              (omega (arith, l₁, t.2)) (omega (arith, l₁, t.2)) (omega arith))
            λ ts m s₂ _ _ r. takes [] refl (
              (t.0, r.0),
              omega (arith, t.2, r.1, length-append filter (names_bytes ts)),
              omega (arith, t.2, r.2, left),
            ))
]

pub Takes-unsubscribe :
    (h : Header) (s : Bytes)
    → All IsByte s
    → Windowed h s
    → Takes
        (λ u n. All IsShort u.topics × (n ≡ length (names_bytes u.topics) + 2) × (n ≡ h.len))
        s
        (read_unsubscribe h s)
unfolding read_unsubscribe
Takes-unsubscribe h s hs w = Takes-bind s _ hs (Takes-read_u16 s hs) λ pid n s₁ h₁ l₁ p.
    let left = sub_usize_exact h.len 2 (h.len - 2) (omega (arith, l₁, p.1)) w.1 in
    Takes-bind s₁ _ h₁
      (Takes-names (suc (length s₁)) (sub_usize h.len 2) s₁ h₁ (omega arith)
        (omega (arith, l₁, p.1)) (omega arith))
      λ ts k s₂ _ _ r. takes [] refl (r.0, omega (arith, r.1, p.1), omega (arith, r.2, p.1, l₁))
