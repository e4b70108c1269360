-- ===== src/Command/Numbers.antt =====
-- `str::parse::<u16>` and `str::parse::<u8>`, which src/client/cli.rs calls on the values of options. They are
-- the parsers of Rust's standard library, written out here.
pub mod Laws
pub mod Decimal
use rust_mq.Base.{
  ℕ, ◌+◌, ◌-◌, ◌*◌, ◌≤◌, ◌≡◌, leb, ltb, ◌&&◌, Bool, true, false, List, [], ◌∷◌, Option, none, some,
  if◌then◌else◌, ◌==◌, arith,
}
use rust_mq.Mqtt3.Bytes.{Text}

is_digit : ℕ → Bool
is_digit c = leb b'0' c && leb c b'9'

-- The loop over the digits: a product or a sum above `max` is an overflow.
unfoldable pub parse_digits : ℕ → ℕ → Text → Option ℕ
unfolding is_digit
parse_digits max acc [] = some acc
parse_digits max acc (c ∷ s) =
    let acc' = acc * 10 + (c - b'0') in
    let rest = parse_digits max acc' s in
    if is_digit c then (if ltb max acc' then none else rest) else none

-- A text of digits, at least one, of which a plus sign may stand in front.
unfoldable pub parse_unsigned : ℕ → Text → Option ℕ
unfolding parse_digits
parse_unsigned max [] = none
parse_unsigned max (c ∷ []) = parse_digits max 0 (c ∷ [])
parse_unsigned max (c ∷ d ∷ s) =
    if c == b'+' then parse_digits max 0 (d ∷ s) else parse_digits max 0 (c ∷ d ∷ s)

abbrev pub parse_u16 : Text → Option ℕ
parse_u16 = parse_unsigned 65535

abbrev pub parse_u8 : Text → Option ℕ
parse_u8 = parse_unsigned 255
