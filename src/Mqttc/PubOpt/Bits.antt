-- ===== src/Mqttc/PubOpt/Bits.antt =====
-- What the operators of `PubOpt` in mqttc/src/lib.rs do to each bit, and which bits its parts are.
use Prim.Native.Nat.{min, max, differ}
use rust_mq.Base.{
  ℕ, zero, suc, ◌-◌, ◌/◌, ◌%◌, ◌==◌, ◌≡◌, ◌≤◌, ◌<◌, refl, Bool, Bool-cases, ltb, ltb→lt, not-ltb→le,
  if◌then◌else◌, inl, inr, arith,
}
use rust_mq.Base.Bits.{bit_zero, bit_one, bit_two}
use rust_mq.Base.Digits.{bit, bit-zero, bit-and, bit-or, bit-xor, ones, bit-complement, bit-above}
use rust_mq.Mqtt3.Qos.{Qos}
use rust_mq.Mqttc.PubOpt.{PubOpt, bitor, bitxor, bitand, sub, not, new, qos, is_retain, new-parts}

-- The quality of service that the second and the first bit name.
abbrev pub Level : ℕ → ℕ → Qos → Type 0
Level (suc _) _ q = q ≡ Qos.exactly_once
Level zero (suc _) q = q ≡ Qos.at_least_once
Level zero zero q = q ≡ Qos.at_most_once

bit-sub : (a b k : ℕ) → a ≤ 255 → b ≤ 255 → bit (sub a b) k ≡ min (bit a k) (1 - bit b k)
unfolding sub ones
bit-sub a b k ha hb = elim (Bool-cases (ltb k 8)) [
  | inl lt ↦ omega (arith, bit-and a (255 - b) k, bit-complement 8 b k hb (ltb→lt k 8 lt))
  | inr ge ↦ omega (arith, bit-and a (255 - b) k, bit-above 8 a k ha (not-ltb→le k 8 ge))
]

bit-not : (a k : ℕ) → a ≤ 255 → bit (not a) k ≡ (if ltb k 3 then 1 - bit a k else 0)
unfolding not ones
bit-not a k ha = elim (Bool-cases (ltb k 3)) [
  | inl lt ↦
      let below : k < 3 = ltb→lt k 3 lt in
      let masked : bit 7 k ≡ 1 - bit 0 k = bit-complement 3 0 k (omega arith) below in
      let turned : bit (255 - a) k ≡ 1 - bit a k = bit-complement 8 a k ha (omega arith) in
      rw lt (omega (arith, bit-and (255 - a) 7 k, masked, turned, bit-zero k))
  | inr ge ↦
      let masked : bit 7 k ≡ 0 = bit-above 3 7 k (omega arith) (not-ltb→le k 3 ge) in
      rw ge (omega (arith, bit-and (255 - a) 7 k, masked))
]

is_retain-bit : (a : ℕ) → a ≤ 255 → is_retain a ≡ (bit a 2 == 1)
unfolding is_retain bit
is_retain-bit a h = let two = bit_two a (omega arith) in ground arith

Level-bits : (a : ℕ) → a ≤ 255 → (x y : ℕ) → a % 2 ≡ y → a / 2 % 2 ≡ x → Level x y (qos a)
unfolding qos
Level-bits a h (suc x) y e₀ e₁ = let one = bit_one a (omega arith) in ground arith
Level-bits a h zero (suc y) e₀ e₁ =
    let one = bit_one a (omega arith) in let zeroth = bit_zero a (omega arith) in ground arith
Level-bits a h zero zero e₀ e₁ =
    let one = bit_one a (omega arith) in let zeroth = bit_zero a (omega arith) in ground arith

qos-bits : (a : ℕ) → a ≤ 255 → Level (bit a 1) (bit a 0) (qos a)
unfolding bit
qos-bits a h = Level-bits a h _ _ refl refl

-- On bytes, `|`, `&` and `^` act on each bit alone; `-` keeps the bits of its first operand that its
-- second does not have; and `!` turns the three lowest bits and clears all others. The retain flag is
-- the third bit, and the quality of service is that of the second bit where it is set, and that of the
-- first bit otherwise; `new` gives an option with the quality of service and the flag it is given.
pub operators-bits :
    (a b : PubOpt) (k : ℕ) (q : Qos) (r : Bool)
    → a ≤ 255
    → b ≤ 255
    → (bit (bitor a b) k ≡ max (bit a k) (bit b k))
      × (bit (bitand a b) k ≡ min (bit a k) (bit b k))
      × (bit (bitxor a b) k ≡ differ (bit a k) (bit b k))
      × (bit (sub a b) k ≡ min (bit a k) (1 - bit b k))
      × (bit (not a) k ≡ (if ltb k 3 then 1 - bit a k else 0))
      × (is_retain a ≡ (bit a 2 == 1))
      × Level (bit a 1) (bit a 0) (qos a)
      × (qos (new q r) ≡ q)
      × (is_retain (new q r) ≡ r)
unfolding bitor bitand bitxor
operators-bits a b k q r ha hb = (
  bit-or a b k,
  bit-and a b k,
  bit-xor a b k,
  bit-sub a b k ha hb,
  bit-not a k ha,
  is_retain-bit a ha,
  qos-bits a ha,
  (new-parts q r).0,
  (new-parts q r).1,
)
