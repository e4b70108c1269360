-- ===== src/Mqtt3/Accept/Bodies.antt =====
-- CONNECT, CONNACK and PUBLISH on any stream: what the reader accepts fits the protocol's ranges.
use rust_mq.Base.{
  ℕ, ◌+◌, ◌/◌, ◌≡◌, refl, not, [], length, All, arith, Bool-cases, ◌==◌, bit_and, inl, inr,
}
use rust_mq.Outcome.{Result, ok, err, from_result}
use rust_mq.Mqtt3.Bytes.{Bytes, Text, IsByte, IsU16, IsShort}
use rust_mq.Mqtt3.Protocol.{Protocol, IsSupported, version_3_1, version_3_1_1}
use rust_mq.Mqtt3.Protocol
use rust_mq.Mqtt3.Qos.{Qos, at_most_once, at_least_once, exactly_once}
use rust_mq.Mqtt3.Qos
use rust_mq.Mqtt3.Errors.{Error}
use rust_mq.Mqtt3.ConnectReturnCode
use rust_mq.Mqtt3.Header.{Header}
use rust_mq.Mqtt3.Header
use rust_mq.Mqtt3.Packet.{Publish, Packet}
use rust_mq.Mqtt3.Read.{
  read_will, read_optional, read_connect, read_connack, read_pid, read_publish,
  read_acknowledgement,
}
use rust_mq.Mqtt3.Write.{pid_size}
use rust_mq.Mqtt3.Codec.Connect.{WillFits, OptionalFits, ConnectFits}
use rust_mq.Mqtt3.Codec.Publish.{PidFits}
use rust_mq.Mqtt3.Accept.Takes.{
  Takes, takes, refuses, Takes-bind, Takes-from_result, Takes-attempt, OkIs, Takes-read_u8,
  Takes-read_u16, Takes-to_end,
}
use rust_mq.Mqtt3.Accept.Strings.{Takes-text}

Protocol-new-IsSupported :
    (name : Text) (level : ℕ) (p : Protocol) → Protocol.new name level ≡ ok p → IsSupported p
unfolding Protocol.new
Protocol-new-IsSupported name level (Protocol.mq_isdp l) e = version_3_1 (ground arith)
Protocol-new-IsSupported name level (Protocol.mqtt l) e = version_3_1_1 (ground arith)

Takes-will :
    (flags : ℕ) (s : Bytes) → All IsByte s → Takes (λ w n. WillFits w) s (read_will flags s)
unfolding read_will
Takes-will flags s hs = elim (Bool-cases (bit_and flags 0b100 == 0)) [
  | inl absent ↦ rw absent (elim (Bool-cases (not (bit_and flags 0b00111000 == 0))) [
    | inl wrong ↦ rw wrong (refuses [] refl)
    | inr right ↦ rw right (takes [] refl tt)
  ])
  | inr present ↦ rw present (
      Takes-bind s _ hs (Takes-text s hs) λ topic n s₁ h₁ _ p.
        Takes-bind s₁ _ h₁ (Takes-text s₁ h₁) λ message k s₂ h₂ _ q.
          Takes-bind s₂ _ h₂
            (Takes-from_result {P = λ _ _. Unit} (Qos.from_u8 (bit_and flags 0b11000 / 8)) s₂
              λ _ _. tt)
            λ qos _ s₃ _ _ _. takes [] refl (p.0, q.0))
]

Takes-optional :
    (flag : ℕ) (s : Bytes) → All IsByte s → Takes (λ t n. OptionalFits t) s (read_optional flag s)
unfolding read_optional
Takes-optional flag s hs = elim (Bool-cases (flag == 0)) [
  | inl absent ↦ rw absent (takes [] refl tt)
  | inr present ↦
      rw present (Takes-bind s _ hs (Takes-text s hs) λ text n s₁ _ _ p. takes [] refl p.0)
]

pub Takes-connect : (s : Bytes) → All IsByte s → Takes (λ c n. ConnectFits c) s (read_connect s)
unfolding read_connect
Takes-connect s hs = Takes-bind s _ hs (Takes-text s hs) λ name _ s₁ h₁ _ _.
    Takes-bind s₁ _ h₁ (Takes-read_u8 s₁ h₁) λ level _ s₂ h₂ _ _.
      Takes-bind s₂ _ h₂
        (Takes-from_result {P = λ p _. IsSupported p} (Protocol.new name level) s₂
          (Protocol-new-IsSupported name level))
        λ protocol _ s₃ h₃ _ supported.
          Takes-bind s₃ _ h₃ (Takes-read_u8 s₃ h₃) λ flags _ s₄ h₄ _ _.
            Takes-bind s₄ _ h₄ (Takes-read_u16 s₄ h₄) λ keep_alive _ s₅ h₅ _ keep.
              Takes-bind s₅ _ h₅ (Takes-text s₅ h₅) λ client_id _ s₆ h₆ _ client.
                Takes-bind s₆ _ h₆ (Takes-will flags s₆ h₆) λ w _ s₇ h₇ _ will.
                  Takes-bind s₇ _ h₇ (Takes-optional (bit_and flags 0b10000000) s₇ h₇)
                    λ u _ s₈ h₈ _ user.
                      Takes-bind s₈ _ h₈ (Takes-optional (bit_and flags 0b01000000) s₈ h₈)
                        λ p _ s₉ h₉ _ pass. takes [] refl (record {
                          supported = supported;
                          keep_alive = keep.0;
                          client_id = client.0;
                          last_will = will;
                          username = user;
                          password = pass;
                        })

pub Takes-connack :
    (h : Header) (s : Bytes) → All IsByte s → Takes (λ c n. Unit) s (read_connack h s)
unfolding read_connack
Takes-connack h s hs = elim (Bool-cases (not (h.len == 2))) [
  | inl wrong ↦ rw wrong (refuses [] refl)
  | inr right ↦ rw right (
      Takes-bind s _ hs (Takes-read_u8 s hs) λ flags _ s₁ h₁ _ _.
        Takes-bind s₁ _ h₁ (Takes-read_u8 s₁ h₁) λ code _ s₂ h₂ _ _.
          Takes-bind s₂ _ h₂
            (Takes-from_result {P = λ _ _. Unit} (ConnectReturnCode.from_u8 code) s₂ λ _ _. tt)
            λ _ _ s₃ _ _ _. takes [] refl tt)
]

pub Takes-acknowledgement :
    (P : Packet → Type 0) (packet : ℕ → Packet) (len : ℕ) (s : Bytes)
    → All IsByte s
    → ((pid : ℕ) → IsU16 pid → P (packet pid))
    → Takes (λ p n. P p) s (read_acknowledgement packet len s)
unfolding read_acknowledgement
Takes-acknowledgement P packet len s hs h = elim (Bool-cases (not (len == 2))) [
  | inl wrong ↦ rw wrong (refuses [] refl)
  | inr right ↦
      rw right (Takes-bind s _ hs (Takes-read_u16 s hs) λ pid n s₁ _ _ p. takes [] refl (h pid p.0))
]

Takes-pid :
    (q : Qos) (s : Bytes)
    → All IsByte s
    → Takes (λ o n. PidFits q o × (n ≡ pid_size o)) s (read_pid q s)
unfolding read_pid Qos.eq
Takes-pid at_most_once s hs = takes [] refl (tt, refl)
Takes-pid at_least_once s hs =
    Takes-bind s _ hs (Takes-read_u16 s hs)
      λ pid n s₁ _ _ p. takes [] refl (p.0, omega (arith, p.1))
Takes-pid exactly_once s hs =
    Takes-bind s _ hs (Takes-read_u16 s hs)
      λ pid n s₁ _ _ p. takes [] refl (p.0, omega (arith, p.1))

Takes-kept-topic :
    (topic : Result Error Text) (n : ℕ) (s : Bytes)
    → OkIs (λ t k. IsShort t × All IsByte t × (k ≡ length t + 2)) topic n
    → Takes (λ t z. IsShort t × (n ≡ length t + 2) × (z ≡ 0)) s (from_result topic s)
Takes-kept-topic (ok t) n s h = takes [] refl (h.0, h.2, refl)
Takes-kept-topic (err e) n s h = refuses [] refl

-- The bytes of the body are all taken.
abbrev pub PublishTaken : Publish → ℕ → Type 0
PublishTaken p n =
    IsShort p.topic_name
    × PidFits p.qos p.pid
    × (n ≡ length p.topic_name + 2 + length p.payload + pid_size p.pid)

pub Takes-publish :
    (h : Header) (q : Qos) (s : Bytes)
    → Header.qos h ≡ ok q
    → All IsByte s
    → Takes PublishTaken s (read_publish h s)
unfolding read_publish
Takes-publish h q s e hs = rw e (
    Takes-bind s _ hs (Takes-attempt (Takes-text s hs)) λ topic n s₁ h₁ _ t.
      Takes-bind s₁ _ h₁ (Takes-pid q s₁ h₁) λ pid k s₂ h₂ _ p.
        Takes-bind s₂ _ h₂ (Takes-to_end s₂ h₂) λ payload m s₃ h₃ _ b.
          Takes-bind s₃ _ h₃ (Takes-kept-topic topic n s₃ t)
            λ name z s₄ _ _ r. takes [] refl (r.0, p.0, omega (arith, r.1, r.2, p.1, b.1)))
