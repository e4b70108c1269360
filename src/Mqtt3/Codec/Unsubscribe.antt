-- ===== src/Mqtt3/Codec/Unsubscribe.antt =====
-- UNSUBSCRIBE: what the writer sends is what the reader makes the packet of.
use rust_mq.Base.{
  ℕ, zero, suc, ◌+◌, ◌^◌, ◌≤◌, ◌<◌, ◌≡◌, refl, List, [], ◌∷◌, ◌++◌, All, length, length-append,
  arith, append_assoc,
}
use rust_mq.Mqtt3.Bytes.{Bytes, Text, IsShort, max_payload_size}
use rust_mq.Mqtt3.Header.{Header}
use rust_mq.Mqtt3.Packet.{Unsubscribe}
use rust_mq.Mqtt3.Read.{unsubscribe_loop, read_unsubscribe}
use rust_mq.Mqtt3.Write.{names_fold, write_names, write_unsubscribe}
use rust_mq.Mqtt3.Codec.Actions.{
  Writes, Reads, ReadsAll, Reads→ReadsAll, Writes-nothing, Writes-u16, Writes-text, Writes-write,
  Reads-u16, Reads-text, u16_bytes, text_bytes,
}
use rust_mq.Mqtt3.Codec.Length.{length_field, Writes-remaining_length}
use rust_mq.Mqtt3.Codec.Counts.{==-zero_of_pos, sub_usize_exact}

abbrev pub names_bytes : List Text → Bytes
names_bytes [] = []
names_bytes (t ∷ ts) = text_bytes t ++ names_bytes ts

names_fold-length : (s : ℕ) (ts : List Text) → names_fold s ts ≡ s + length (names_bytes ts)
unfolding names_fold
names_fold-length s [] = omega arith
names_fold-length s (t ∷ ts) =
    omega (arith, names_fold-length (s + length t + 2) ts, length-append t (names_bytes ts))

Writes-names : (ts : List Text) → All IsShort ts → Writes (write_names ts) (names_bytes ts)
unfolding write_names
Writes-names [] h out = Writes-nothing out
Writes-names (t ∷ ts) h out = rw (Writes-text t h.0.1, Writes-names ts h.1) (simp append_assoc)

Reads-names :
    (ts : List Text) (fuel remaining : ℕ)
    → All IsShort ts
    → length ts < fuel
    → remaining ≡ length (names_bytes ts)
    → remaining < 2 ^ 64
    → Reads (unsubscribe_loop fuel remaining) (names_bytes ts) ts
unfolding unsubscribe_loop
Reads-names ts zero remaining h f e small rest = absurd (omega arith)
Reads-names [] (suc fuel) remaining h f e small rest = rw e
Reads-names (t ∷ ts) (suc fuel) remaining h f e small rest =
    let size = length-append t (names_bytes ts) in
    let left =
      sub_usize_exact remaining (length t + 2) (length (names_bytes ts)) (omega (arith, size))
        small in
    rw (
      ==-zero_of_pos remaining (omega arith),
      unsubscribe_loop,
      append_assoc t (names_bytes ts) rest,
      Reads-text t h.0,
      left,
      Reads-names ts fuel (length (names_bytes ts)) h.1 (omega arith) refl (omega (arith, size)),
    )

names_count : (ts : List Text) → length ts ≤ length (names_bytes ts)
names_count [] = omega arith
names_count (t ∷ ts) = omega (arith, names_count ts, length-append t (names_bytes ts))

unfoldable pub unsubscribe_body : Unsubscribe → Bytes
unsubscribe_body u = u16_bytes u.pid ++ names_bytes u.topics

pub record UnsubscribeFits (u : Unsubscribe) : Type 0 where
  pub topics : All IsShort u.topics
  pub size : length (names_bytes u.topics) + 2 ≤ max_payload_size

pub ReadsAll-unsubscribe :
    (u : Unsubscribe) (h : Header)
    → UnsubscribeFits u
    → h.len ≡ length (unsubscribe_body u)
    → ReadsAll (read_unsubscribe h) (unsubscribe_body u) u
unfolding read_unsubscribe unsubscribe_body
ReadsAll-unsubscribe u h fits e =
    let n = length (names_bytes u.topics) in
    let left = sub_usize_exact h.len 2 n (omega (arith, e)) (omega (arith, e, fits.size)) in
    rw (
      Reads-u16 u.pid,
      left,
      Reads→ReadsAll (unsubscribe_loop (suc n) n) (names_bytes u.topics) (
          Reads-names u.topics (suc n) n fits.topics (omega (arith, names_count u.topics)) refl
            (omega (arith, fits.size))),
    )

pub Writes-unsubscribe :
    (u : Unsubscribe)
    → UnsubscribeFits u
    → Writes
        (write_unsubscribe u)
        (0xa2 ∷ (length_field (length (unsubscribe_body u)) ++ unsubscribe_body u))
unfolding write_unsubscribe unsubscribe_body
Writes-unsubscribe u h out =
    let size : 2 + names_fold 0 u.topics ≡ suc (suc (length (names_bytes u.topics))) =
      omega (arith, names_fold-length 0 u.topics) in
    rw
      (
        size,
        Writes-write (0xa2 ∷ []),
        Writes-remaining_length (suc (suc (length (names_bytes u.topics)))) (omega (arith, h.size)),
        Writes-u16 u.pid,
        Writes-names u.topics h.topics,
      )
      (simp append_assoc)
