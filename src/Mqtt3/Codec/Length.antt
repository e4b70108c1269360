-- ===== src/Mqtt3/Codec/Length.antt =====
-- The remaining length of the fixed header: `write_remaining_length` and `read_remaining_length`.
use mathlib.Core.WellFounded.{Acc}
use mathlib.Core.Logic.{dif_pos}
use native.Mathlib.Bridge.{le_prop}
use native.Mathlib.Decide.{dec_lt}
use native.Mathlib.Nat.{div-add-mod}
use rust_mq.Base.{
  ℕ, zero, suc, ◌+◌, ◌*◌, ◌/◌, ◌%◌, ◌^◌, ◌≤◌, ◌<◌, ◌≡◌, refl, ap, ◌∙◌, [], ◌∷◌, ◌++◌, length, All,
  arith, bit_or, bit_and, le→not-ltb, lt→ltb,
}
use rust_mq.Base.Order.{lt_wf}
use rust_mq.Base.Bits.{low_seven, top_bit, set_top_bit}
use rust_mq.Outcome.{done, failed}
use rust_mq.Mqtt3.Bytes.{Bytes, IsByte, multiplier, max_payload_size}
use rust_mq.Mqtt3.Errors.{payload_too_long}
use rust_mq.Mqtt3.Stream.{length_loop, read_remaining_length}
use rust_mq.Mqtt3.Write.{length_bytes, quotient_shrinks, write_remaining_length}
use rust_mq.Mqtt3.Codec.Actions.{Writes, Reads}

-- `k` more rounds after the next one keep the multiplier within its limit.
abbrev Room : ℕ → ℕ → Type 0
Room zero mult = mult * 128 ≤ multiplier
Room (suc k) mult = (mult * 128 ≤ multiplier) × Room k (mult * 128)

last_round :
    (b mult len : ℕ) (rest : Bytes)
    → b < 128
    → mult * 128 ≤ multiplier
    → length_loop mult len (b ∷ rest) ≡ done (len + b * mult) rest
unfolding length_loop
last_round b mult len rest hb room = ground (arith, low_seven b, top_bit b)

inner_round :
    (g mult len : ℕ) (rest : Bytes)
    → g < 128
    → mult * 128 ≤ multiplier
    → length_loop mult len (bit_or g 128 ∷ rest) ≡ length_loop (mult * 128) (len + g * mult) rest
unfolding length_loop
inner_round g mult len rest hg room =
    ground (arith, set_top_bit g, low_seven (g + 128), top_bit (g + 128))

split_value : (x mult : ℕ) → x * mult ≡ x % 128 * mult + x / 128 * (mult * 128)
split_value x mult = omega (arith, ap (λ (t : ℕ). t * mult) (div-add-mod x 128))

length_loop-length_bytes :
    (k x mult len : ℕ) (w : Acc ◌<◌ x) (rest : Bytes)
    → x < 128 ^ suc k
    → Room k mult
    → length_loop mult len (length_bytes x w ++ rest) ≡ done (len + x * mult) rest
unfolding length_bytes
length_loop-length_bytes zero x mult len (Acc.intro _ smaller) rest hx room =
    ground (arith, last_round x mult len rest)
length_loop-length_bytes (suc k) x mult len (Acc.intro _ smaller) rest hx room = grind (
  arith,
  last_round x mult len rest,
  split_value x mult,
  λ (v : Acc ◌<◌ (x / 128)).
      inner_round (x % 128) mult len (length_bytes (x / 128) v ++ rest) (omega arith) room.0,
  λ (v : Acc ◌<◌ (x / 128)).
      length_loop-length_bytes k (x / 128) (mult * 128) (len + x % 128 * mult) v rest (omega arith)
        room.1,
)

-- The bytes that `write_remaining_length` writes.
abbrev pub length_field : ℕ → Bytes
length_field n = length_bytes n (lt_wf.apply n)

pub Writes-remaining_length :
    (n : ℕ) → n ≤ max_payload_size → Writes (write_remaining_length n) (length_field n)
unfolding write_remaining_length
Writes-remaining_length n h out = rw (le→not-ltb max_payload_size n h)

pub write_remaining_length_too_long :
    (n : ℕ) (out : Bytes)
    → max_payload_size < n
    → write_remaining_length n out ≡ failed payload_too_long out
unfolding write_remaining_length
write_remaining_length_too_long n out h = rw (lt→ltb max_payload_size n h)

pub Reads-remaining_length :
    (n : ℕ) → n ≤ max_payload_size → Reads read_remaining_length (length_field n) n
unfolding read_remaining_length
Reads-remaining_length n h rest =
    length_loop-length_bytes 3 n 1 0 _ rest (omega arith) (omega arith)
    ∙ ap (λ (k : ℕ). done k rest) (omega arith)

-- Each byte is a byte, and `k` rounds more than one are enough below 128 ^ (k + 1).
pub length_bytes-shape :
    (k x : ℕ) (w : Acc ◌<◌ x)
    → x < 128 ^ suc k
    → All IsByte (length_bytes x w)
      × (0 < length (length_bytes x w))
      × (length (length_bytes x w) ≤ suc k)
unfolding length_bytes
length_bytes-shape zero x (Acc.intro _ smaller) h = ground arith
length_bytes-shape (suc k) x (Acc.intro _ smaller) h = grind (
  arith,
  set_top_bit (x % 128),
  λ (v : Acc ◌<◌ (x / 128)). length_bytes-shape k (x / 128) v (omega arith),
)

one-le-pow : (k : ℕ) → 1 ≤ 128 ^ k
one-le-pow zero = omega arith
one-le-pow (suc k) = omega (arith, one-le-pow k)

-- No shorter form: a value of 128 ^ k or more takes more than k bytes.
length_bytes-minimal : (k x : ℕ) (w : Acc ◌<◌ x) → 128 ^ k ≤ x → k < length (length_bytes x w)
unfolding length_bytes
length_bytes-minimal zero x (Acc.intro _ smaller) h = ground arith
length_bytes-minimal (suc k) x (Acc.intro _ smaller) h =
    let more : 0 < x / 128 = omega (arith, one-le-pow k) in
    rw (dif_pos (dec_lt 0 (x / 128)) le_prop more) (
      omega (
        arith,
        length_bytes-minimal k (x / 128) (smaller _ (quotient_shrinks x more)) (omega arith),
      ))

pub value-lt : (b mult len : ℕ) → b < 256 → len < mult → len + bit_and b 0x7f * mult < mult * 0x80
value-lt b mult len hb hl =
    let digit : bit_and b 0x7f ≤ 127 = omega (arith, low_seven b hb) in grind arith

pub length_field_two : length_field 2 ≡ 2 ∷ []
unfolding length_bytes lt_wf
length_field_two = refl
