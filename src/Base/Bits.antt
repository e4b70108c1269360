-- ===== src/Base/Bits.antt =====
-- Masks on one byte as arithmetic: each a table over the values, checked by evaluation.
use Prim.Native.Nat.{ℕ, zero, suc, ◌+◌, ◌*◌, ◌/◌, ◌%◌, ◌<◌, bit_and, bit_or}
use mathlib.Core.Path.{◌≡◌, refl}
use mathlib.Core.Bool.{Bool, true, false}
use mathlib.Core.Logic.{ite}
use native.Mathlib.Decide.{ℕ_discrete}
use native.Mathlib.Omega.{arith}

module _ (f g : ℕ → ℕ) where
  agree_below : ℕ → Bool
  unfolding ℕ_discrete
  agree_below zero = true
  agree_below (suc n) = ite (ℕ_discrete (f n) (g n)) (agree_below n) false

  agree_below→eq : (n : ℕ) → agree_below n ≡ true → (i : ℕ) → i < n → f i ≡ g i
  unfolding agree_below
  agree_below→eq zero e i h = absurd (omega arith)
  agree_below→eq (suc n) e i h = ground (arith, agree_below→eq n (ground arith) i)

pub low_seven : (b : ℕ) → b < 256 → bit_and b 0x7f ≡ b % 128
unfolding agree_below
low_seven = agree_below→eq _ _ 256 refl

pub top_bit : (b : ℕ) → b < 256 → bit_and b 0x80 ≡ b / 128 * 128
unfolding agree_below
top_bit = agree_below→eq _ _ 256 refl

pub set_top_bit : (b : ℕ) → b < 128 → bit_or b 0x80 ≡ b + 128
unfolding agree_below
set_top_bit = agree_below→eq _ _ 128 refl

-- The two bits that hold the quality of service in a header byte.
pub qos_bits : (b : ℕ) → b < 256 → bit_and b 6 ≡ b / 2 % 4 * 2
unfolding agree_below
qos_bits = agree_below→eq _ _ 256 refl

-- Each of the three lowest bits alone.
pub bit_zero : (b : ℕ) → b < 256 → bit_and b 1 ≡ b % 2
unfolding agree_below
bit_zero = agree_below→eq _ _ 256 refl

pub bit_one : (b : ℕ) → b < 256 → bit_and b 2 ≡ b / 2 % 2 * 2
unfolding agree_below
bit_one = agree_below→eq _ _ 256 refl

pub bit_two : (b : ℕ) → b < 256 → bit_and b 4 ≡ b / 2 / 2 % 2 * 4
unfolding agree_below
bit_two = agree_below→eq _ _ 256 refl
