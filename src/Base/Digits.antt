-- ===== src/Base/Digits.antt =====
-- The binary digits of a number, lowest first, and what the native operations on them do to each.
use Prim.Native.Nat.{
  ℕ, zero, suc, ◌+◌, ◌-◌, ◌*◌, ◌/◌, ◌%◌, ◌≤◌, ◌<◌, bit_and, bit_or, bit_xor, min, max, differ,
  digits, bit_and-bitwise, bit_or-bitwise, bit_xor-bitwise,
}
use mathlib.Core.Path.{◌≡◌, refl, ap, ◌∙◌}
use native.Mathlib.Omega.{arith}

-- The digit at a place.
unfoldable pub bit : ℕ → ℕ → ℕ
bit a zero = a % 2
bit a (suc k) = bit (a / 2) k

pub bit_le : (a k : ℕ) → bit a k ≤ 1
unfolding bit
bit_le a zero = omega arith
bit_le a (suc k) = bit_le (a / 2) k

pub bit-zero : (k : ℕ) → bit 0 k ≡ 0
unfolding bit
bit-zero zero = refl
bit-zero (suc k) = bit-zero k

module _ (z : ℕ → ℕ) (f : ℕ → ℕ → ℕ) (small : (x y : ℕ) → x ≤ 1 → y ≤ 1 → f x y ≤ 1)
    (ended : (b k : ℕ) → bit (z b) k ≡ f 0 (bit b k)) where
  bit-ended : (b k : ℕ) → bit (z b) k ≡ f (bit 0 k) (bit b k)
  bit-ended b k = rw (bit-zero k) (ended b k)

  bit-digits : (n a b k : ℕ) → a ≤ n → bit (digits z f n a b) k ≡ f (bit a k) (bit b k)
  unfolding bit
  bit-digits zero zero b k h = bit-ended b k
  bit-digits zero (suc a) b k h = absurd (omega arith)
  bit-digits (suc n) zero b k h = bit-ended b k
  bit-digits (suc n) (suc a) b zero h =
      omega (arith, small (suc a % 2) (b % 2) (omega arith) (omega arith))
  bit-digits (suc n) (suc a) b (suc k) h =
      let d = f (suc a % 2) (b % 2) in
      let low : d ≤ 1 = small (suc a % 2) (b % 2) (omega arith) (omega arith) in
      let rest = digits z f n (suc a / 2) (b / 2) in
      let half : (rest * 2 + d) / 2 ≡ rest = omega arith in
      ap (λ x. bit x k) half ∙ bit-digits n (suc a / 2) (b / 2) k (omega arith)

differ_le : (x y : ℕ) → x ≤ 1 → y ≤ 1 → differ x y ≤ 1
differ_le zero y hx hy = hy
differ_le (suc x) zero hx hy = hx
differ_le (suc x) (suc y) hx hy = differ_le x y (omega arith) (omega arith)

pub bit-and : (a b k : ℕ) → bit (bit_and a b) k ≡ min (bit a k) (bit b k)
bit-and a b k =
    ap (λ x. bit x k) (bit_and-bitwise a b)
    ∙ bit-digits (λ b. 0) min (λ x y hx hy. omega arith) (λ b k. omega (arith, bit-zero k)) a a b k
        (omega arith)

pub bit-or : (a b k : ℕ) → bit (bit_or a b) k ≡ max (bit a k) (bit b k)
bit-or a b k =
    ap (λ x. bit x k) (bit_or-bitwise a b)
    ∙ bit-digits (λ b. b) max (λ x y hx hy. omega arith) (λ b k. omega arith) a a b k (omega arith)

pub bit-xor : (a b k : ℕ) → bit (bit_xor a b) k ≡ differ (bit a k) (bit b k)
bit-xor a b k =
    ap (λ x. bit x k) (bit_xor-bitwise a b)
    ∙ bit-digits (λ b. b) differ differ_le (λ b k. refl) a a b k (omega arith)

-- The number with as many digits, all of them one.
unfoldable pub ones : ℕ → ℕ
ones zero = 0
ones (suc n) = ones n * 2 + 1

pub bit-complement : (n a k : ℕ) → a ≤ ones n → k < n → bit (ones n - a) k ≡ 1 - bit a k
unfolding ones bit
bit-complement zero a k h lt = absurd (omega arith)
bit-complement (suc n) a zero h lt = omega arith
bit-complement (suc n) a (suc k) h lt =
    let half : (ones n * 2 + 1 - a) / 2 ≡ ones n - a / 2 = omega arith in
    ap (λ x. bit x k) half ∙ bit-complement n (a / 2) k (omega arith) (omega arith)

pub bit-above : (n a k : ℕ) → a ≤ ones n → n ≤ k → bit a k ≡ 0
unfolding ones bit
bit-above zero a k h le = (let none_left : a ≡ 0 = omega arith in rw none_left (bit-zero k))
bit-above (suc n) a zero h le = absurd (omega arith)
bit-above (suc n) a (suc k) h le = bit-above n (a / 2) k (omega arith) (omega arith)
