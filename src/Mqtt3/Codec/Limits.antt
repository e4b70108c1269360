-- ===== src/Mqtt3/Codec/Limits.antt =====
-- The limits of the remaining length: its field is the shortest one, and what does not fit is
-- refused. `write_remaining_length` and `write_packet` of mqtt3/src/write.rs.
use native.Mathlib.Nat.{mul_assoc}
use rust_mq.Base.{
  ℕ, suc, ◌+◌, ◌*◌, ◌^◌, ◌≤◌, ◌<◌, ◌≡◌, refl, ap, ◌∙◌, [], ◌∷◌, ◌++◌, length, length-append, All,
  arith, inl, inr, Bool-cases, ltb, ◌==◌, bit_and,
}
use rust_mq.Base.Order.{lt_wf}
use rust_mq.Outcome.{Outcome, done, failed}
use rust_mq.Mqtt3.Bytes.{Bytes, IsByte, multiplier, max_payload_size}
use rust_mq.Mqtt3.Errors.{Error, payload_too_long}
use rust_mq.Mqtt3.Packet.{
  Packet, connect, connack, publish, puback, pubrec, pubrel, pubcomp, subscribe, suback,
  unsubscribe, unsuback, pingreq, pingresp, disconnect,
}
use rust_mq.Mqtt3.Stream.{length_loop, read_remaining_length}
use rust_mq.Mqtt3.Write.{
  write, write_u8, write_remaining_length, connect_size, written_pid, pid_size, topics_fold,
  names_fold, write_connect, write_publish, write_subscribe, write_suback, write_unsubscribe,
  write_packet, publish_byte,
}
use rust_mq.Mqtt3.Codec.Length.{
  length_field, Writes-remaining_length, Reads-remaining_length, write_remaining_length_too_long,
  length_bytes-shape, value-lt,
}
use rust_mq.Mqtt3.Accept.Takes.{Takes, takes, refuses, Takes-after, Takes-weaken}

-- Every length up to `max_payload_size` is written in one to four bytes, and the reader makes the
-- same length of them and leaves what follows.
pub read_remaining_length-write_remaining_length :
    (len : ℕ) (out rest : Bytes)
    → len ≤ max_payload_size
    → (bytes : Bytes) × (write_remaining_length len out ≡ done tt (out ++ bytes))
      × (read_remaining_length (bytes ++ rest) ≡ done len rest)
      × All IsByte bytes
      × (0 < length bytes)
      × (length bytes ≤ 4)
read_remaining_length-write_remaining_length len out rest h =
    let (small, pos, four) = length_bytes-shape 3 len (lt_wf.apply len) (omega arith) in
    (
      length_field len,
      Writes-remaining_length len h out,
      Reads-remaining_length len h rest,
      small,
      pos,
      four,
    )

power : (n : ℕ) → 128 ^ (1 + n) ≡ 128 * 128 ^ n
power n = let e : 1 + n ≡ suc n = omega arith in ap (λ (k : ℕ). 128 ^ k) e ∙ omega arith

shift : (m n v : ℕ) → v < m * 128 * 128 ^ n → v < m * 128 ^ (1 + n)
shift m n v h = rw (power n) (rw (mul_assoc m 128 (128 ^ n)) at h)

-- `n` bytes hold a value below 128 ^ n.
length_loop-bound :
    (s : Bytes) (mult len : ℕ)
    → All IsByte s
    → len < mult
    → Takes (λ v n. (v < mult * 128 ^ n) × (v < multiplier) × (0 < n)) s (length_loop mult len s)
unfolding length_loop
length_loop-bound [] mult len hs h = refuses [] refl
length_loop-bound (b ∷ s) mult len hs h =
    let next = value-lt b mult len hs.0 h in
    elim (Bool-cases (ltb multiplier (mult * 0x80))) [
      | inl over ↦ rw over (refuses (b ∷ []) refl)
      | inr within ↦ rw within (elim (Bool-cases (bit_and b 0x80 == 0)) [
        | inl last ↦ rw last (takes (b ∷ []) refl (next, ground arith, omega arith))
        | inr more ↦ rw more (
            Takes-after (b ∷ s) (b ∷ []) s refl (
              Takes-weaken
                (length_loop-bound s (mult * 0x80) (len + bit_and b 0x7f * mult) hs.1 next)
                λ v n p. (shift mult n v p.0, p.1, omega arith)))
      ])
    ]

-- What `done` says of the field that was read.
abbrev Bounded : Bytes → Outcome Error Bytes ℕ → Type 0
Bounded s (done v rest) =
    (k : ℕ) × (v < 128 ^ suc k) × (v ≤ max_payload_size) × (length s ≡ suc k + length rest)
Bounded s _ = Unit

bounded :
    {s : Bytes} {o : Outcome Error Bytes ℕ}
    → Takes (λ v n. (v < 1 * 128 ^ n) × (v < multiplier) × (0 < n)) s o
    → Bounded s o
bounded (takes [] cut h) = absurd (omega (arith, h.2))
bounded (takes {rest} (b ∷ front) cut h) = (
  length front,
  omega (arith, h.0),
  omega (arith, h.1),
  ap length cut ∙ length-append (b ∷ front) rest,
)
bounded (refuses front cut) = tt

-- The writer's field is the shortest one: whatever bytes the reader makes a length of, the writer
-- writes the same length in no more bytes.
pub write_remaining_length-shortest :
    (bytes rest out : Bytes) (len : ℕ)
    → All IsByte (bytes ++ rest)
    → read_remaining_length (bytes ++ rest) ≡ done len rest
    → (own : Bytes) × (write_remaining_length len out ≡ done tt (out ++ own))
      × (length own ≤ length bytes)
unfolding read_remaining_length
write_remaining_length-shortest bytes rest out len hs e =
    let (k, small, fits, size) =
      rw e at (bounded (length_loop-bound (bytes ++ rest) 1 0 hs (omega arith))) in
    let (_, _, short) = length_bytes-shape k len (lt_wf.apply len) small in
    (
      length_field len,
      Writes-remaining_length len fits out,
      omega (arith, short, size, length-append bytes rest),
    )

-- A packet with a body: the size that the writer announces.
abbrev pub announced : Packet → ℕ
announced (connect c) = connect_size c
announced (publish p) = length p.topic_name + 2 + length p.payload + pid_size (written_pid p)
announced (subscribe s) = 2 + topics_fold 0 s.topics
announced (suback s) = length s.return_codes + 2
announced (unsubscribe u) = 2 + names_fold 0 u.topics
announced _ = 2

abbrev pub first_byte : Packet → ℕ
first_byte (connect c) = 0x10
first_byte (connack c) = 0x20
first_byte (publish p) = publish_byte p.retain p.qos p.dup
first_byte (puback pid) = 0x40
first_byte (pubrec pid) = 0x50
first_byte (pubrel pid) = 0x62
first_byte (pubcomp pid) = 0x70
first_byte (subscribe s) = 0x82
first_byte (suback s) = 0x90
first_byte (unsubscribe u) = 0xa2
first_byte (unsuback pid) = 0xb0
first_byte pingreq = 0xc0
first_byte pingresp = 0xd0
first_byte disconnect = 0xe0

small_size : (n : ℕ) {A : Type 0} → n ≤ 2 → max_payload_size < n → A
small_size n h big = absurd (omega arith)

-- A packet whose announced size is above `max_payload_size` is refused with `payload_too_long`,
-- and its first byte is all that has been written by then.
pub write_packet-too_long :
    (p : Packet) (out : Bytes)
    → max_payload_size < announced p
    → write_packet p out ≡ failed payload_too_long (out ++ first_byte p ∷ [])
unfolding write_packet write_connect write_publish write_subscribe write_suback write_unsubscribe
    write_u8 write
write_packet-too_long (connect c) out h =
    rw (write_remaining_length_too_long (announced (connect c)) (out ++ 0x10 ∷ []) h) refl
write_packet-too_long (publish p) out h =
    rw
      (write_remaining_length_too_long (announced (publish p)) (out ++ first_byte (publish p) ∷ [])
        h)
      refl
write_packet-too_long (subscribe s) out h =
    rw (write_remaining_length_too_long (announced (subscribe s)) (out ++ 0x82 ∷ []) h) refl
write_packet-too_long (suback s) out h =
    rw (write_remaining_length_too_long (announced (suback s)) (out ++ 0x90 ∷ []) h) refl
write_packet-too_long (unsubscribe u) out h =
    rw (write_remaining_length_too_long (announced (unsubscribe u)) (out ++ 0xa2 ∷ []) h) refl
write_packet-too_long _ out h = absurd (omega arith)
