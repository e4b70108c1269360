-- ===== src/Command/Numbers/Decimal.antt =====
-- The port in the address that a command of src/client/command/ connects to, as `parse` reads it.
use rust_mq.Base.{
  ℕ, suc, ◌+◌, ◌-◌, ◌*◌, ◌/◌, ◌%◌, ◌<◌, ◌≡◌, ◌≢◌, refl, [], ◌∷◌, ◌++◌, All, Bool-cases, ltb, inl,
  inr, some, arith, All-append, ltb→lt, not-ltb→le,
}
use rust_mq.Mqtt3.Bytes.{Text, IsU16}
use rust_mq.Command.Ending.{decimal}
use rust_mq.Command.Numbers.{parse_u16}
use rust_mq.Command.Numbers.Laws.{IsDigit, value_from, plain, parse_unsigned-Denotes}

value_from-append :
    (acc c : ℕ) (s : Text) → value_from acc (s ++ c ∷ []) ≡ value_from acc s * 10 + (c - b'0')
unfolding value_from
value_from-append acc c [] = refl
value_from-append acc c (d ∷ s) = value_from-append (acc * 10 + (d - b'0')) c s

append-ne : (s : Text) (c : ℕ) → s ++ c ∷ [] ≢ []
append-ne [] c e = cc
append-ne (d ∷ s) c e = cc

-- Digits that have this value.
abbrev Shows : Text → ℕ → Type 0
Shows s n = (s ≢ []) × All IsDigit s × (value_from 0 s ≡ n)

decimal-step :
    (fuel n : ℕ) → (9 < n → Shows (decimal fuel (n / 10)) (n / 10)) → Shows (decimal (suc fuel) n) n
unfolding decimal
decimal-step fuel n front = elim (Bool-cases (ltb n 10)) [
  | inl small ↦
      let h = ltb→lt n 10 small in
      rw small (λ e. cc, ((omega arith, omega arith), tt), unfold value_from in omega arith)
  | inr large ↦
      let h = not-ltb→le n 10 large in
      let (ne, ds, v) = front (omega arith) in
      rw large (
        append-ne (decimal fuel (n / 10)) (b'0' + n % 10),
        All-append IsDigit (decimal fuel (n / 10)) _ ds ((omega arith, omega arith), tt),
        omega (arith, value_from-append 0 (b'0' + n % 10) (decimal fuel (n / 10)), v),
      )
]

decimal-Shows : (n : ℕ) → n < 100000 → Shows (decimal 5 n) n
decimal-Shows n h = decimal-step 4 n λ _. decimal-step 3 (n / 10) λ _.
    decimal-step 2 (n / 10 / 10) λ _.
      decimal-step 1 (n / 10 / 10 / 10)
        λ _. decimal-step 0 (n / 10 / 10 / 10 / 10) λ big. absurd (omega arith)

-- The port at the end of the address that a command connects to is read as the same port.
pub parse_u16-decimal : (port : ℕ) → IsU16 port → parse_u16 (decimal 5 port) ≡ some port
parse_u16-decimal port h =
    let (ne, ds, v) = decimal-Shows port (omega arith) in
    (parse_unsigned-Denotes 65535 port (decimal 5 port)).1 (plain ne ds v, omega arith)
