-- ===== src/Mqtt3/Codec/Subscribe.antt =====
-- SUBSCRIBE: what the writer sends is what the reader makes the packet of.
use rust_mq.Base.{
  ℕ, zero, suc, ◌+◌, ◌^◌, ◌≤◌, ◌<◌, ◌≡◌, refl, List, [], ◌∷◌, ◌++◌, All, length, length-append,
  arith, append_assoc,
}
use rust_mq.Mqtt3.Bytes.{Bytes, IsShort, max_payload_size}
use rust_mq.Mqtt3.Qos.{Qos, at_most_once, at_least_once, exactly_once, from_u8-to_u8}
use rust_mq.Mqtt3.Qos
use rust_mq.Mqtt3.Header.{Header}
use rust_mq.Mqtt3.Packet.{SubscribeTopic, Subscribe}
use rust_mq.Mqtt3.Stream.{read_u8}
use rust_mq.Mqtt3.Read.{subscribe_loop, read_subscribe}
use rust_mq.Mqtt3.Write.{topics_fold, write_topics, write_subscribe}
use rust_mq.Mqtt3.Codec.Actions.{
  Writes, Reads, ReadsAll, Reads→ReadsAll, Writes-nothing, Writes-u8, Writes-u16, Writes-text,
  Writes-write, Reads-u16, Reads-text, u16_bytes, text_bytes,
}
use rust_mq.Mqtt3.Codec.Length.{length_field, Writes-remaining_length}
use rust_mq.Mqtt3.Codec.Counts.{==-zero_of_pos, sub_usize_exact}

abbrev pub TopicFits : SubscribeTopic → Type 0
TopicFits t = IsShort t.topic_path

abbrev pub topics_bytes : List SubscribeTopic → Bytes
topics_bytes [] = []
topics_bytes (t ∷ ts) = text_bytes t.topic_path ++ (Qos.to_u8 t.qos ∷ topics_bytes ts)

topics_fold-length :
    (s : ℕ) (ts : List SubscribeTopic) → topics_fold s ts ≡ s + length (topics_bytes ts)
unfolding topics_fold
topics_fold-length s [] = omega arith
topics_fold-length s (t ∷ ts) = omega (
  arith,
  topics_fold-length (s + length t.topic_path + 3) ts,
  length-append t.topic_path (Qos.to_u8 t.qos ∷ topics_bytes ts),
)

Writes-topics :
    (ts : List SubscribeTopic) → All TopicFits ts → Writes (write_topics ts) (topics_bytes ts)
unfolding write_topics
Writes-topics [] h out = Writes-nothing out
Writes-topics (t ∷ ts) h out =
    rw (Writes-text t.topic_path h.0.1, Writes-u8 (Qos.to_u8 t.qos), Writes-topics ts h.1)
      (simp append_assoc)

-- A remaining count of just these topics takes them all and ends.
Reads-topics :
    (ts : List SubscribeTopic) (fuel remaining : ℕ)
    → All TopicFits ts
    → length ts < fuel
    → remaining ≡ length (topics_bytes ts)
    → remaining < 2 ^ 64
    → Reads (subscribe_loop fuel remaining) (topics_bytes ts) ts
unfolding subscribe_loop read_u8
Reads-topics ts zero remaining h f e small rest = absurd (omega arith)
Reads-topics [] (suc fuel) remaining h f e small rest = rw e
Reads-topics (t ∷ ts) (suc fuel) remaining h f e small rest =
    let size = length-append t.topic_path (Qos.to_u8 t.qos ∷ topics_bytes ts) in
    let left =
      sub_usize_exact remaining (length t.topic_path + 3) (length (topics_bytes ts))
        (omega (arith, size)) small in
    rw (
      ==-zero_of_pos remaining (omega arith),
      subscribe_loop,
      append_assoc t.topic_path (Qos.to_u8 t.qos ∷ topics_bytes ts) rest,
      Reads-text t.topic_path h.0,
      from_u8-to_u8 t.qos,
      left,
      Reads-topics ts fuel (length (topics_bytes ts)) h.1 (omega arith) refl (omega (arith, size)),
    )

topics_count : (ts : List SubscribeTopic) → length ts ≤ length (topics_bytes ts)
topics_count [] = omega arith
topics_count (t ∷ ts) =
    omega (arith, topics_count ts, length-append t.topic_path (Qos.to_u8 t.qos ∷ topics_bytes ts))

unfoldable pub subscribe_body : Subscribe → Bytes
subscribe_body s = u16_bytes s.pid ++ topics_bytes s.topics

pub record SubscribeFits (s : Subscribe) : Type 0 where
  pub topics : All TopicFits s.topics
  pub size : length (topics_bytes s.topics) + 2 ≤ max_payload_size

pub ReadsAll-subscribe :
    (s : Subscribe) (h : Header)
    → SubscribeFits s
    → h.len ≡ length (subscribe_body s)
    → ReadsAll (read_subscribe h) (subscribe_body s) s
unfolding read_subscribe subscribe_body
ReadsAll-subscribe s h fits e =
    let left =
      sub_usize_exact h.len 2 (length (topics_bytes s.topics)) (omega (arith, e))
        (omega (arith, e, fits.size)) in
    rw (
      Reads-u16 s.pid,
      left,
      Reads→ReadsAll
          (subscribe_loop (suc (length (topics_bytes s.topics))) (length (topics_bytes s.topics)))
          (topics_bytes s.topics)
          (Reads-topics s.topics (suc (length (topics_bytes s.topics)))
            (length (topics_bytes s.topics)) fits.topics (omega (arith, topics_count s.topics)) refl
            (omega (arith, fits.size))),
    )

pub Writes-subscribe :
    (s : Subscribe)
    → SubscribeFits s
    → Writes
        (write_subscribe s)
        (0x82 ∷ (length_field (length (subscribe_body s)) ++ subscribe_body s))
unfolding write_subscribe subscribe_body
Writes-subscribe s h out =
    let size : 2 + topics_fold 0 s.topics ≡ suc (suc (length (topics_bytes s.topics))) =
      omega (arith, topics_fold-length 0 s.topics) in
    rw
      (
        size,
        Writes-write (0x82 ∷ []),
        Writes-remaining_length (suc (suc (length (topics_bytes s.topics))))
            (omega (arith, h.size)),
        Writes-u16 s.pid,
        Writes-topics s.topics h.topics,
      )
      (simp append_assoc)
