-- ===== src/Command/Numbers/Laws.antt =====
-- What `parse` accepts, against the value of a numeral.
use rust_mq.Base.{
  ℕ, ◌+◌, ◌-◌, ◌*◌, ◌≤◌, ◌≡◌, ◌≢◌, ◌↔◌, refl, ltb, ◌==◌, false, [], ◌∷◌, All, some, Bool-cases, inl,
  inr, arith, not-ltb→le,
}
use rust_mq.Mqtt3.Bytes.{Text}
use rust_mq.Command.Numbers.{is_digit, parse_digits, parse_unsigned}

abbrev pub IsDigit : ℕ → Type 0
IsDigit c = (b'0' ≤ c) × (c ≤ b'9')

-- The value of digits, after the digits whose value is `acc`.
unfoldable pub value_from : ℕ → Text → ℕ
value_from acc [] = acc
value_from acc (c ∷ s) = value_from (acc * 10 + (c - b'0')) s

-- A text that stands for a number: digits, at least one, and a plus sign in front or none.
pub data Denotes (s : Text) (n : ℕ) : Type 0 where
  plain : s ≢ [] → All IsDigit s → value_from 0 s ≡ n → Denotes s n
  signed : (t : Text) → s ≡ b'+' ∷ t → t ≢ [] → All IsDigit t → value_from 0 t ≡ n → Denotes s n

le-value : (acc : ℕ) (s : Text) → acc ≤ value_from acc s
unfolding value_from
le-value acc [] = omega arith
le-value acc (c ∷ s) = omega (arith, le-value (acc * 10 + (c - b'0')) s)

digits_sound :
    (max acc n : ℕ) (s : Text)
    → acc ≤ max
    → parse_digits max acc s ≡ some n
    → All IsDigit s × (value_from acc s ≡ n) × (n ≤ max)
unfolding parse_digits is_digit value_from
digits_sound max acc n [] h e = (tt, ground arith, ground arith)
digits_sound max acc n (c ∷ s) h e = elim (Bool-cases (is_digit c)) [
  | inr no_digit ↦ absurd (cc (rw no_digit at e))
  | inl digit ↦ elim (Bool-cases (ltb max (acc * 10 + (c - b'0')))) [
    | inl over ↦ absurd (cc (rw (digit, over) at e))
    | inr fits ↦
        let (ds, v, b) =
          digits_sound max (acc * 10 + (c - b'0')) n s (not-ltb→le _ _ fits)
            (rw (digit, fits) at e) in
        ((ground arith, ds), v, b)
  ]
]

digits_complete :
    (max acc : ℕ) (s : Text)
    → All IsDigit s
    → value_from acc s ≤ max
    → parse_digits max acc s ≡ some (value_from acc s)
unfolding parse_digits is_digit value_from
digits_complete max acc [] ds h = refl
digits_complete max acc (c ∷ s) (d, ds) h =
    ground (
      arith,
      le-value (acc * 10 + (c - b'0')) s,
      digits_complete max (acc * 10 + (c - b'0')) s ds h,
    )

parse_unsigned_sound :
    (max n : ℕ) (s : Text) → parse_unsigned max s ≡ some n → Denotes s n × (n ≤ max)
unfolding parse_unsigned
parse_unsigned_sound max n [] e = absurd (cc)
parse_unsigned_sound max n (c ∷ []) e =
    let (ds, v, b) = digits_sound max 0 n (c ∷ []) (omega arith) e in (plain (cc) ds v, b)
parse_unsigned_sound max n (c ∷ d ∷ s) e = elim (Bool-cases (c == b'+')) [
  | inl plus ↦
      let (ds, v, b) = digits_sound max 0 n (d ∷ s) (omega arith) (rw plus at e) in
      (signed (d ∷ s) (ground arith) (cc) ds v, b)
  | inr other ↦
      let (ds, v, b) = digits_sound max 0 n (c ∷ d ∷ s) (omega arith) (rw other at e) in
      (plain (cc) ds v, b)
]

plain_complete :
    (max : ℕ) (s : Text)
    → s ≢ []
    → All IsDigit s
    → value_from 0 s ≤ max
    → parse_unsigned max s ≡ some (value_from 0 s)
unfolding parse_unsigned
plain_complete max [] ne ds h = absurd (ne refl)
plain_complete max (c ∷ []) ne ds h = digits_complete max 0 (c ∷ []) ds h
plain_complete max (c ∷ d ∷ s) ne ds h =
    let no_plus : (c == b'+') ≡ false = ground arith in
    rw no_plus (digits_complete max 0 (c ∷ d ∷ s) ds h)

signed_complete :
    (max : ℕ) (t : Text)
    → t ≢ []
    → All IsDigit t
    → value_from 0 t ≤ max
    → parse_unsigned max (b'+' ∷ t) ≡ some (value_from 0 t)
unfolding parse_unsigned
signed_complete max [] ne ds h = absurd (ne refl)
signed_complete max (d ∷ s) ne ds h = digits_complete max 0 (d ∷ s) ds h

Denotes-parse : (max n : ℕ) (s : Text) → Denotes s n → n ≤ max → parse_unsigned max s ≡ some n
Denotes-parse max n s (plain ne ds v) h = rw v at (plain_complete max s ne ds (omega arith))
Denotes-parse max n s (signed t e ne ds v) h =
    rw e (rw v at (signed_complete max t ne ds (omega arith)))

-- `parse` gives a number just for the texts that stand for it and only if the type has it: digits,
-- at least one, with a plus sign in front or none.
pub parse_unsigned-Denotes :
    (max n : ℕ) (s : Text) → (parse_unsigned max s ≡ some n) ↔ (Denotes s n × (n ≤ max))
parse_unsigned-Denotes max n s = (parse_unsigned_sound max n s, λ h. Denotes-parse max n s h.0 h.1)
