-- ===== src/Mqtt3/Codec/Suback.antt =====
-- SUBACK: what the writer sends is what the reader makes the packet of.
use rust_mq.Base.{
  suc, ◌+◌, ◌≤◌, ◌≡◌, refl, ap, List, [], ◌∷◌, ◌++◌, map, length, arith, append_assoc,
}
use rust_mq.Outcome.{ok}
use rust_mq.Mqtt3.Bytes.{Bytes, max_payload_size}
use rust_mq.Mqtt3.Qos.{Qos, at_most_once, at_least_once, exactly_once, from_u8-to_u8}
use rust_mq.Mqtt3.Qos
use rust_mq.Mqtt3.Header.{Header}
use rust_mq.Mqtt3.Packet.{SubscribeReturnCodes, success, failure, Suback}
use rust_mq.Mqtt3.Stream.{read_u8}
use rust_mq.Mqtt3.Read.{suback_code, suback_loop, read_suback}
use rust_mq.Mqtt3.Write.{return_code_u8, write_suback}
use rust_mq.Mqtt3.Codec.Actions.{
  Writes, Reads, ReadsAll, Reads→ReadsAll, Writes-u16, Writes-write, Reads-u16, u16_bytes,
}
use rust_mq.Mqtt3.Codec.Length.{length_field, Writes-remaining_length}
use rust_mq.Mqtt3.Codec.Counts.{sub_usize_exact}

Reads-code : (c : SubscribeReturnCodes) → suback_code (return_code_u8 c) ≡ ok c
unfolding suback_code return_code_u8 Qos.from_u8
Reads-code (success at_most_once) = refl
Reads-code (success at_least_once) = refl
Reads-code (success exactly_once) = refl
Reads-code failure = refl

Reads-codes :
    (cs : List SubscribeReturnCodes) → Reads (suback_loop (length cs)) (map return_code_u8 cs) cs
unfolding suback_loop read_u8
Reads-codes [] rest = refl
Reads-codes (c ∷ cs) rest = rw (Reads-code c, Reads-codes cs)

pub length-codes : (cs : List SubscribeReturnCodes) → length (map return_code_u8 cs) ≡ length cs
length-codes [] = refl
length-codes (c ∷ cs) = ap suc (length-codes cs)

unfoldable pub suback_body : Suback → Bytes
suback_body s = u16_bytes s.pid ++ map return_code_u8 s.return_codes

abbrev pub SubackFits : Suback → Type 0
SubackFits s = length s.return_codes + 2 ≤ max_payload_size

pub ReadsAll-suback :
    (s : Suback) (h : Header)
    → SubackFits s
    → h.len ≡ length (suback_body s)
    → ReadsAll (read_suback h) (suback_body s) s
unfolding read_suback suback_body
ReadsAll-suback s h fits e =
    let count = length-codes s.return_codes in
    let left =
      sub_usize_exact h.len 2 (length s.return_codes) (omega (arith, e, count))
        (omega (arith, e, count)) in
    rw (
      Reads-u16 s.pid,
      left,
      Reads→ReadsAll (suback_loop (length s.return_codes)) (map return_code_u8 s.return_codes)
          (Reads-codes s.return_codes),
    )

pub Writes-suback :
    (s : Suback)
    → SubackFits s
    → Writes (write_suback s) (0x90 ∷ (length_field (length (suback_body s)) ++ suback_body s))
unfolding write_suback suback_body
Writes-suback s h out =
    let size : length s.return_codes + 2 ≡ suc (suc (length (map return_code_u8 s.return_codes))) =
      omega (arith, length-codes s.return_codes) in
    rw
      (
        size,
        Writes-write (0x90 ∷ []),
        Writes-remaining_length (suc (suc (length (map return_code_u8 s.return_codes))))
            (omega (arith, size)),
        Writes-u16 s.pid,
        Writes-write (map return_code_u8 s.return_codes),
      )
      (simp append_assoc)
