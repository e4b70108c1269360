-- ===== src/Mqtt3/Accept/Packets.antt =====
-- `read_packet` on any stream: it answers with a packet that fits the protocol's ranges or with an
-- error, and it panics on one class of headers only.
use rust_mq.Base.{
  ℕ, ◌/◌, ◌%◌, ◌≤◌, ◌<◌, ◌≡◌, ◌≢◌, ◌⊎◌, refl, ap, ◌∙◌, false, [], ◌∷◌, length, All, take, arith,
  Bool-cases, ◌==◌, inl, inr, length-take,
}
use rust_mq.Base.Bits.{qos_bits}
use rust_mq.Outcome.{Result, ok, err, Result-cases, Outcome, done, panicked, and_then, kept}
use rust_mq.Mqtt3.Bytes.{Bytes, IsByte, max_payload_size}
use rust_mq.Mqtt3.Errors.{Error}
use rust_mq.Mqtt3.PacketType.{PacketType}
use rust_mq.Mqtt3.PacketType
use rust_mq.Mqtt3.Qos.{Qos}
use rust_mq.Mqtt3.Header.{Header}
use rust_mq.Mqtt3.Header
use rust_mq.Mqtt3.Packet.{Packet}
use rust_mq.Mqtt3.Stream.{Reader, read_u8, read_remaining_length, limited}
use rust_mq.Mqtt3.Read.{read_body, read_empty, read_publish, read_after_length, read_packet}
use rust_mq.Mqtt3.Codec.RoundTrip.{Fits, IsReadable}
use rust_mq.Mqtt3.Accept.Takes.{
  Takes, takes, refuses, Takes-after, Takes-bind, Takes-weaken, Takes-limited, All-take, All-rest,
}
use rust_mq.Mqtt3.Accept.Strings.{Takes-text, Takes-remaining_length}
use rust_mq.Mqtt3.Accept.Bodies.{Takes-connect, Takes-connack, Takes-acknowledgement, Takes-publish}
use rust_mq.Mqtt3.Accept.Lists.{Takes-subscribe, Takes-suback, Takes-unsubscribe}

abbrev pub Sound : Packet → Type 0
Sound p = Fits p × IsReadable p

Header-new-fields :
    (hd len : ℕ) (h : Header)
    → Header.new hd len ≡ ok h
    → (h.hd ≡ hd) × (h.len ≡ len) × (PacketType.from_hd hd ≡ ok h.typ)
unfolding Header.new
Header-new-fields hd len h e = ground arith

from_hd-publish : (hd : ℕ) → PacketType.from_hd hd ≡ ok PacketType.publish → hd / 16 ≡ 3
unfolding PacketType.from_hd
from_hd-publish hd e = ground arith

qos-err : (h : Header) (e : Error) → IsByte h.hd → Header.qos h ≡ err e → h.hd / 2 % 4 ≡ 3
unfolding Header.qos
qos-err h e small q = ground (arith, qos_bits h.hd)

Takes-empty : (typ : PacketType) (s : Bytes) → Takes (λ p n. Sound p) s (read_empty typ s)
unfolding read_empty
Takes-empty PacketType.pingreq s = takes [] refl (tt, tt)
Takes-empty PacketType.pingresp s = takes [] refl (tt, tt)
Takes-empty _ s = refuses [] refl

module _ (h : Header) (s : Bytes) (hs : All IsByte s) (w : length s ≤ h.len)
    (small : h.len ≤ max_payload_size) where
  Takes-body :
      (typ : PacketType)
      → (typ ≡ PacketType.publish → (q : Qos) × (Header.qos h ≡ ok q))
      → Takes (λ p n. Sound p) s (read_body h typ s)
  unfolding read_body
  Takes-body PacketType.connect q =
      Takes-bind s _ hs (Takes-connect s hs) λ c n s₁ _ _ p. takes [] refl (p, tt)
  Takes-body PacketType.connack q =
      Takes-bind s _ hs (Takes-connack h s hs) λ c n s₁ _ _ p. takes [] refl (tt, tt)
  Takes-body PacketType.publish q =
      let (level, e) = q refl in
      Takes-bind s _ hs (Takes-publish h level s e hs) λ c n s₁ _ l p.
        takes [] refl (record { topic_name = p.0; pid = p.1; size = omega (arith, l, p.2) }, tt)
  Takes-body PacketType.puback q =
      Takes-acknowledgement Sound Packet.puback h.len s hs λ _ _. (tt, tt)
  Takes-body PacketType.pubrec q =
      Takes-acknowledgement Sound Packet.pubrec h.len s hs λ _ _. (tt, tt)
  Takes-body PacketType.pubrel q =
      Takes-acknowledgement Sound Packet.pubrel h.len s hs λ _ _. (tt, tt)
  Takes-body PacketType.pubcomp q =
      Takes-acknowledgement Sound Packet.pubcomp h.len s hs λ _ _. (tt, tt)
  Takes-body PacketType.subscribe q =
      Takes-bind s _ hs (Takes-subscribe h s hs (w, omega arith))
        λ c n s₁ _ l p. takes [] refl (record { topics = p.0; size = omega (arith, l, p.1) }, tt)
  Takes-body PacketType.suback q =
      Takes-bind s _ hs (Takes-suback h s hs (w, omega arith))
        λ c n s₁ _ l p. takes [] refl (omega (arith, l, p.0), tt)
  Takes-body PacketType.unsubscribe q =
      Takes-bind s _ hs (Takes-unsubscribe h s hs (w, omega arith))
        λ c n s₁ _ l p. takes [] refl (record { topics = p.0; size = omega (arith, l, p.1) }, tt)
  Takes-body PacketType.unsuback q =
      Takes-acknowledgement Sound Packet.unsuback h.len s hs λ _ _. (tt, tt)
  Takes-body PacketType.pingreq q = refuses [] refl
  Takes-body PacketType.pingresp q = refuses [] refl
  Takes-body PacketType.disconnect q = refuses [] refl

-- The class of headers on which `header.qos().unwrap()` panics: a PUBLISH with a body, whose two
-- QoS bits are both set.
abbrev pub HasBadQos : ℕ → ℕ → Type 0
HasBadQos hd len = (hd / 16 ≡ 3) × (hd / 2 % 4 ≡ 3) × (0 < len)

kept-panics :
    {A B : Type 0} {P : A → ℕ → Type 0} (s : Bytes) {o : Outcome Error Bytes A}
    (f : Result Error A → Reader B)
    → Takes P s o
    → ((r : Result Error A) (t : Bytes) → f r t ≡ panicked)
    → and_then (kept o) f ≡ panicked
kept-panics s f (takes {a} {rest} front e p) h = h (ok a) rest
kept-panics s f (refuses {e} {rest} front p) h = h (err e) rest

publish-panics :
    (h : Header) (e : Error) (s : Bytes)
    → All IsByte s
    → Header.qos h ≡ err e
    → read_publish h s ≡ panicked
unfolding read_publish
publish-panics h e s hs q = rw q (kept-panics s _ (Takes-text s hs) λ r t. refl)

pub panics :
    (h : Header) (e : Error) (s : Bytes)
    → All IsByte s
    → Header.qos h ≡ err e
    → limited h.len (read_body h PacketType.publish) s ≡ panicked
unfolding limited read_body
panics h e s hs q = rw (publish-panics h e (take h.len s) (All-take h.len s hs) q) refl

PacketType-publish : (typ : PacketType) → (typ ≡ PacketType.publish) ⊎ (typ ≢ PacketType.publish)
PacketType-publish typ = ground arith

-- An outcome of the reader: it panics on the headers of that class, and otherwise it takes a front
-- part of the stream and answers with a sound packet or with an error.
abbrev Answers : ℕ → ℕ → Bytes → Outcome Error Bytes Packet → Type 0
Answers hd len s o = (HasBadQos hd len × (o ≡ panicked)) ⊎ Takes (λ p n. Sound p) s o

module _ (h : Header) (s : Bytes) (hb : IsByte h.hd) (small : h.len ≤ max_payload_size)
    (pos : 0 < h.len) (hs : All IsByte s) where
  body-taken :
      (typ : PacketType)
      → (typ ≡ PacketType.publish → (q : Qos) × (Header.qos h ≡ ok q))
      → Takes (λ p n. Sound p) s (limited h.len (read_body h typ) s)
  body-taken typ q =
      Takes-weaken
        (Takes-limited h.len (read_body h typ) s (
          Takes-body h (take h.len s) (All-take h.len s hs) (omega (arith, length-take h.len s))
            small typ q))
        λ p n t. t.0

  body-Answers :
      (typ : PacketType)
      → (typ ≡ PacketType.publish → h.hd / 16 ≡ 3)
      → Answers h.hd h.len s (limited h.len (read_body h typ) s)
  body-Answers typ is_pub = elim (PacketType-publish typ) [
    | inr other ↦ inr (body-taken typ λ e. absurd (other e))
    | inl same ↦ rw same (elim (Result-cases (Header.qos h)) [
      | inl (q, e) ↦ inr (body-taken PacketType.publish λ _. (q, e))
      | inr (e, bad) ↦ inl ((is_pub same, qos-err h e hb bad, pos), panics h e s hs bad)
    ])
  ]

pos_of_== : (n : ℕ) → (n == 0) ≡ false → 0 < n
pos_of_== n e = ground arith

after-Answers :
    (hd len : ℕ) (s : Bytes)
    → IsByte hd
    → len ≤ max_payload_size
    → All IsByte s
    → Answers hd len s (read_after_length hd len s)
unfolding read_after_length
after-Answers hd len s hb small hs = elim (Result-cases (Header.new hd len)) [
  | inr (e, bad) ↦ rw bad (inr (refuses [] refl))
  | inl (h, good) ↦
      let (same_hd, same_len, same_typ) = Header-new-fields hd len h good in
      rw good (elim (Bool-cases (len == 0)) [
        | inl empty ↦ rw empty (inr (Takes-empty h.typ s))
        | inr body ↦ rw body (
            rw (← same_hd, ← same_len)
              (body-Answers h s (rw same_hd hb) (rw same_len small)
                (rw same_len (pos_of_== len body)) hs h.typ
                λ is_pub. rw same_hd (from_hd-publish hd (same_typ ∙ ap ok is_pub))))
      ])
]

-- A stream that begins with a header on which the reader panics.
abbrev pub HasBadHeader : Bytes → Type 0
HasBadHeader [] = ⊥
HasBadHeader (hd ∷ t) =
    (len : ℕ) × (rest : Bytes) × (read_remaining_length t ≡ done len rest) × HasBadQos hd len

module _ (hd : ℕ) (t : Bytes) (hs : All IsByte (hd ∷ t)) where
  rest-Answers :
      (o : Outcome Error Bytes ℕ)
      → read_remaining_length t ≡ o
      → Takes (λ v n. (v ≤ max_payload_size) × (0 < n)) t o
      → (HasBadHeader (hd ∷ t) × (and_then o (read_after_length hd) ≡ panicked))
        ⊎ Takes (λ p n. Sound p) (hd ∷ t) (and_then o (read_after_length hd))
  rest-Answers _ e (refuses front p) = inr (refuses (hd ∷ front) (ap (◌∷◌ hd) p))
  rest-Answers _ e (takes {a = len} {rest} front p q) =
      elim (after-Answers hd len rest hs.0 q.0 (All-rest front rest p hs.1)) [
        | inl bad ↦ inl ((len, rest, e, bad.0), bad.1)
        | inr good ↦ inr (Takes-after (hd ∷ t) (hd ∷ front) rest (ap (◌∷◌ hd) p) good)
      ]

pub read_packet_cases :
    (s : Bytes)
    → All IsByte s
    → (HasBadHeader s × (read_packet s ≡ panicked)) ⊎ Takes (λ p n. Sound p) s (read_packet s)
unfolding read_packet read_u8
read_packet_cases [] hs = inr (refuses [] refl)
read_packet_cases (hd ∷ t) hs =
    rest-Answers hd t hs (read_remaining_length t) refl (Takes-remaining_length t hs.1)
