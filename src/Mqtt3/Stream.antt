-- ===== src/Mqtt3/Stream.antt =====
-- The byte-level part of `MqttRead` in mqtt3/src/read.rs: strings and the remaining length. The
-- stream is the list of the bytes that are still to come, and its end is the end of the file, as
-- for a `Cursor<Vec<u8>>`. An error keeps the rest of the stream where the code left it.
use rust_mq.Base.{ℕ, ◌+◌, ◌*◌, ◌==◌, ltb, [], ◌∷◌, ◌++◌, bit_and, if◌then◌else◌, take, drop}
use rust_mq.Base.Utf8.{is_utf8}
use rust_mq.Outcome.{
  Result, ok, err, Outcome, done, failed, panicked, stuck, Action, ◌>>=◌, from_result,
}
use rust_mq.Mqtt3.Bytes.{Bytes, Text, multiplier}
use rust_mq.Mqtt3.Errors.{
  Error, topic_name_must_not_contain_non_utf8, malformed_remaining_length, unexpected_eof,
}

abbrev pub Reader : Type 0 → Type 0
Reader A = Action Error Bytes A

-- `ReadBytesExt::read_u8` and `read_u16::<BigEndian>`.
unfoldable pub read_u8 : Reader ℕ
read_u8 [] = failed unexpected_eof []
read_u8 (b ∷ s) = done b s

unfoldable pub read_u16 : Reader ℕ
read_u16 [] = failed unexpected_eof []
read_u16 (a ∷ []) = failed unexpected_eof []
read_u16 (a ∷ b ∷ s) = done (a * 256 + b) s

unfoldable pub read_to_end : Reader Bytes
read_to_end s = done s []

-- The bytes that a `Take` has not read stay in the stream below it.
abbrev pub put_back {ℓ} : {A : Type ℓ} → Outcome Error Bytes A → Bytes → Outcome Error Bytes A
put_back (done a w) s = done a (w ++ s)
put_back (failed e w) s = failed e (w ++ s)
put_back panicked s = panicked
put_back stuck s = stuck

-- `self.take(n)`: the reader sees the next `n` bytes, or fewer at the end of the stream.
unfoldable pub limited {ℓ} : {A : Type ℓ} → ℕ → Action Error Bytes A → Action Error Bytes A
limited n m s = put_back (m (take n s)) (drop n s)

-- `String::from_utf8`, with the conversion of its error.
unfoldable pub from_utf8 : Bytes → Result Error Text
from_utf8 s = if is_utf8 s then ok s else err topic_name_must_not_contain_non_utf8

unfoldable pub read_mqtt_string : Reader Text
unfolding limited read_to_end
read_mqtt_string = do len ← read_u16; text ← limited len read_to_end; from_result (from_utf8 text)

-- The `while` loop: one byte in each round, so the recursion is on the stream.
unfoldable pub length_loop : ℕ → ℕ → Bytes → Outcome Error Bytes ℕ
length_loop mult len [] = failed unexpected_eof []
length_loop mult len (b ∷ s) =
    let len' = len + bit_and b 0x7f * mult in
    let mult' = mult * 0x80 in
    let rest = length_loop mult' len' s in
    if ltb multiplier mult'
    then failed malformed_remaining_length s
    else if bit_and b 0x80 == 0
    then done len' s
    else rest

unfoldable pub read_remaining_length : Reader ℕ
unfolding length_loop
read_remaining_length = length_loop 1 0
