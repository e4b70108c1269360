-- ===== src/Mqtt3/Accept/Strings.antt =====
-- Strings and the remaining length on any stream.
use rust_mq.Base.{
  ℕ, ◌+◌, ◌*◌, ◌≤◌, ◌<◌, ◌≡◌, refl, [], ◌∷◌, length, All, take, arith, Bool-cases, ltb, ◌==◌,
  bit_and, inl, inr,
}
use rust_mq.Base.Utf8.{IsText}
use rust_mq.Outcome.{ok}
use rust_mq.Mqtt3.Bytes.{Bytes, IsByte, IsShort, multiplier, max_payload_size}
use rust_mq.Mqtt3.Stream.{
  read_to_end, from_utf8, read_mqtt_string, length_loop, read_remaining_length,
}
use rust_mq.Mqtt3.Codec.Length.{value-lt}
use rust_mq.Mqtt3.Accept.Takes.{
  Takes, takes, refuses, Takes-after, Takes-bind, Takes-from_result, Takes-weaken, Takes-limited,
  All-take, Takes-read_u16, Takes-to_end,
}

from_utf8-IsText : (s t : Bytes) → from_utf8 s ≡ ok t → (s ≡ t) × IsText t
unfolding from_utf8
from_utf8-IsText s t e = ground arith

-- A string that is read is UTF-8, and it is two bytes shorter than what is taken.
pub Takes-text :
    (s : Bytes)
    → All IsByte s
    → Takes (λ t n. IsShort t × All IsByte t × (n ≡ length t + 2)) s (read_mqtt_string s)
unfolding read_mqtt_string
Takes-text s hs = Takes-bind s _ hs (Takes-read_u16 s hs) λ len n s₁ h₁ _ p.
    Takes-bind s₁ _ h₁
      (Takes-limited len read_to_end s₁ (Takes-to_end (take len s₁) (All-take len s₁ h₁)))
      λ text k s₂ h₂ _ q. Takes-from_result (from_utf8 text) s₂ λ t e.
        let (same, valid) = from_utf8-IsText text t e in
        rw (← same) (
          ((rw (← same) at valid), omega (arith, p.0, q.1, q.0.1)),
          q.0.0,
          omega (arith, p.1, q.0.1),
        )

length_loop-Takes :
    (s : Bytes) (mult len : ℕ)
    → All IsByte s
    → len < mult
    → Takes (λ v n. (v < multiplier) × (0 < n)) s (length_loop mult len s)
unfolding length_loop
length_loop-Takes [] mult len hs h = refuses [] refl
length_loop-Takes (b ∷ s) mult len hs h =
    let next = value-lt b mult len hs.0 h in
    elim (Bool-cases (ltb multiplier (mult * 0x80))) [
      | inl over ↦ rw over (refuses (b ∷ []) refl)
      | inr within ↦ rw within (elim (Bool-cases (bit_and b 0x80 == 0)) [
        | inl last ↦ rw last (takes (b ∷ []) refl (ground arith, omega arith))
        | inr more ↦ rw more (
            Takes-after (b ∷ s) (b ∷ []) s refl (
              Takes-weaken
                (length_loop-Takes s (mult * 0x80) (len + bit_and b 0x7f * mult) hs.1 next)
                λ v n p. (p.0, omega arith)))
      ])
    ]

pub Takes-remaining_length :
    (s : Bytes)
    → All IsByte s
    → Takes (λ v n. (v ≤ max_payload_size) × (0 < n)) s (read_remaining_length s)
unfolding read_remaining_length
Takes-remaining_length s hs =
    Takes-weaken (length_loop-Takes s 1 0 hs (omega arith)) λ v n p. (omega arith, p.1)
