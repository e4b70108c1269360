-- ===== src/Mqtt3/Codec/Publish.antt =====
-- PUBLISH: what the writer sends is what the reader makes the packet of.
use rust_mq.Base.{
  ℕ, ◌+◌, ◌≤◌, ◌≡◌, refl, not, [], ◌∷◌, ◌++◌, Option, none, some, length, length-append, arith,
  append_assoc, if◌then◌else◌,
}
use rust_mq.Mqtt3.Bytes.{Bytes, IsU16, IsShort, max_payload_size}
use rust_mq.Mqtt3.Qos.{Qos, at_most_once, at_least_once, exactly_once}
use rust_mq.Mqtt3.Qos
use rust_mq.Mqtt3.Packet.{Publish}
use rust_mq.Mqtt3.Stream.{read_to_end}
use rust_mq.Mqtt3.Read.{read_pid, read_publish}
use rust_mq.Mqtt3.Write.{pid_size, publish_byte, write_pid, write_publish}
use rust_mq.Mqtt3.Codec.Actions.{
  Writes, Reads, ReadsAll, Writes-nothing, Writes-u8, Writes-u16, Writes-text, Writes-write,
  Reads-u16, Reads-text, u16_bytes, text_bytes,
}
use rust_mq.Mqtt3.Codec.Length.{length_field, Writes-remaining_length}
use rust_mq.Mqtt3.Codec.Flags.{publish_header, publish_byte_fields}

-- A packet identifier goes with QoS 1 and 2, and with these only.
abbrev pub PidFits : Qos → Option ℕ → Type 0
PidFits at_most_once none = Unit
PidFits at_most_once (some _) = ⊥
PidFits at_least_once none = ⊥
PidFits at_least_once (some n) = IsU16 n
PidFits exactly_once none = ⊥
PidFits exactly_once (some n) = IsU16 n

abbrev pub pid_bytes : Option ℕ → Bytes
pid_bytes none = []
pid_bytes (some n) = u16_bytes n

unfoldable pub publish_body : Publish → Bytes
publish_body p = text_bytes p.topic_name ++ (pid_bytes p.pid ++ p.payload)

pub record PublishFits (p : Publish) : Type 0 where
  pub topic_name : IsShort p.topic_name
  pub pid : PidFits p.qos p.pid
  pub size : length p.topic_name + 2 + length p.payload + pid_size p.pid ≤ max_payload_size

written_pid_self :
    (q : Qos) (o : Option ℕ) → PidFits q o → (if not (Qos.eq q at_most_once) then o else none) ≡ o
unfolding Qos.eq
written_pid_self at_most_once none h = refl
written_pid_self at_most_once (some n) h = absurd h
written_pid_self at_least_once o h = refl
written_pid_self exactly_once o h = refl

Reads-pid : (q : Qos) (o : Option ℕ) → PidFits q o → Reads (read_pid q) (pid_bytes o) o
unfolding read_pid Qos.eq
Reads-pid at_most_once none h rest = refl
Reads-pid at_most_once (some n) h rest = absurd h
Reads-pid at_least_once none h rest = absurd h
Reads-pid at_least_once (some n) h rest = rw (Reads-u16 n)
Reads-pid exactly_once none h rest = absurd h
Reads-pid exactly_once (some n) h rest = rw (Reads-u16 n)

Writes-pid : (o : Option ℕ) → Writes (write_pid o) (pid_bytes o)
unfolding write_pid
Writes-pid none = Writes-nothing
Writes-pid (some n) = Writes-u16 n

pub ReadsAll-publish :
    (p : Publish) (len : ℕ)
    → PublishFits p
    → ReadsAll (read_publish (publish_header p.retain p.qos p.dup len)) (publish_body p) p
unfolding read_publish publish_body read_to_end
ReadsAll-publish p len h =
    let (_, qos, dup, retain) = publish_byte_fields p.retain p.qos p.dup len in
    rw (Reads-text p.topic_name h.topic_name, qos, Reads-pid p.qos p.pid h.pid, dup, retain)

length-pid_bytes : (o : Option ℕ) → length (pid_bytes o) ≡ pid_size o
length-pid_bytes none = refl
length-pid_bytes (some n) = refl

pub publish_size-length :
    (p : Publish)
    → length p.topic_name + 2 + length p.payload + pid_size p.pid ≡ length (publish_body p)
unfolding publish_body
publish_size-length p = simp (length-append, length-pid_bytes) (omega arith)

pub Writes-publish :
    (p : Publish)
    → PublishFits p
    → Writes (write_publish p) (
        publish_byte p.retain p.qos p.dup
        ∷ (length_field (length (publish_body p)) ++ publish_body p))
unfolding write_publish publish_body
Writes-publish p h out =
    rw
      (
        written_pid_self p.qos p.pid h.pid,
        Writes-u8 (publish_byte p.retain p.qos p.dup),
        ← publish_size-length p,
        Writes-remaining_length _ h.size,
        Writes-text p.topic_name h.topic_name.1,
        Writes-pid p.pid,
        Writes-write p.payload,
      )
      (simp append_assoc)
