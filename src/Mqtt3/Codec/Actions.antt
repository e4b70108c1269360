-- ===== src/Mqtt3/Codec/Actions.antt =====
-- What a writer adds and what a reader takes, with the rules that join them along a `do` block; the
-- primitive reads and writes under these notions.
use rust_mq.Base.{
  ℕ, ◌/◌, ◌%◌, ◌≡◌, refl, ap, [], ◌∷◌, ◌++◌, length, arith, append-nil, append_assoc,
  take-append_length, drop-append_length,
}
use rust_mq.Outcome.{done, ◌>>=◌, ◌>>◌}
use rust_mq.Mqtt3.Bytes.{Bytes, Text, IsU16, IsShort}
use rust_mq.Mqtt3.Stream.{Reader, read_u8, read_u16, limited, from_utf8, read_mqtt_string}
use rust_mq.Mqtt3.Write.{Writer, write, write_u8, write_u16, write_mqtt_string}

abbrev pub Writes : Writer → Bytes → Type 0
Writes w bytes = (out : Bytes) → w out ≡ done tt (out ++ bytes)

abbrev pub Reads : {A : Type 0} → Reader A → Bytes → A → Type 0
Reads m bytes a = (rest : Bytes) → m (bytes ++ rest) ≡ done a rest

-- The reader takes the whole stream.
abbrev pub ReadsAll : {A : Type 0} → Reader A → Bytes → A → Type 0
ReadsAll m bytes a = m bytes ≡ done a []

pub Writes-then : (v w : Writer) (x y : Bytes) → Writes v x → Writes w y → Writes (v >> w) (x ++ y)
Writes-then v w x y hv hw out = rw (hv out) (rw (← append_assoc out x y) (hw (out ++ x)))

pub Writes-nothing : Writes (λ out. done tt out) []
Writes-nothing out = rw append-nil

pub Writes-write : (bytes : Bytes) → Writes (write bytes) bytes
unfolding write
Writes-write bytes out = refl

module _ {A B : Type 0} (m : Reader A) (f : A → Reader B) (x y : Bytes) {a : A} {b : B} where
  pub Reads-bind : Reads m x a → Reads (f a) y b → Reads (m >>= f) (x ++ y) b
  Reads-bind hm hf rest = rw (append_assoc x y rest, hm (y ++ rest)) (hf rest)

  pub ReadsAll-bind : Reads m x a → ReadsAll (f a) y b → ReadsAll (m >>= f) (x ++ y) b
  ReadsAll-bind hm hf = rw (hm y) hf

pub Reads→ReadsAll : {A : Type 0} (m : Reader A) (x : Bytes) {a : A} → Reads m x a → ReadsAll m x a
Reads→ReadsAll m x h = rw append-nil at (h [])

-- A limit of just the bytes that the reader takes.
pub limited-ReadsAll :
    {A : Type 0} (m : Reader A) (x : Bytes) {a : A}
    → ReadsAll m x a
    → Reads (limited (length x) m) x a
unfolding limited
limited-ReadsAll m x h rest = rw (take-append_length x rest, drop-append_length x rest, h)

pub Reads-u8 : (b : ℕ) → Reads read_u8 (b ∷ []) b
unfolding read_u8
Reads-u8 b rest = refl

abbrev pub u16_bytes : ℕ → Bytes
u16_bytes n = n / 256 ∷ n % 256 ∷ []

pub Reads-u16 : (n : ℕ) → Reads read_u16 (u16_bytes n) n
unfolding read_u16
Reads-u16 n rest = ap (λ (k : ℕ). done k rest) (omega arith)

pub Writes-u16 : (n : ℕ) → Writes (write_u16 n) (u16_bytes n)
unfolding write_u16 write
Writes-u16 n out = refl

pub Writes-u8 : (b : ℕ) → Writes (write_u8 b) (b ∷ [])
unfolding write_u8
Writes-u8 b out = refl

-- A string on the wire.
abbrev pub text_bytes : Text → Bytes
text_bytes s = u16_bytes (length s) ++ s

pub Writes-text : (s : Text) → IsU16 (length s) → Writes (write_mqtt_string s) (text_bytes s)
unfolding write_mqtt_string
Writes-text s h out =
    let e : length s % 65536 ≡ length s = omega arith in
    rw e (
      Writes-then (write_u16 (length s)) (write s) _ _ (Writes-u16 (length s)) (Writes-write s) out)

pub Reads-text : (s : Text) → IsShort s → Reads read_mqtt_string (text_bytes s) s
unfolding read_mqtt_string from_utf8
Reads-text s (valid, short) rest =
    rw (Reads-u16 (length s) (s ++ rest))
      (rw (take-append_length s rest, drop-append_length s rest, valid))
