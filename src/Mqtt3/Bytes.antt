-- ===== src/Mqtt3/Bytes.antt =====
-- Bytes, texts and the two limits of mqtt3/src/lib.rs. A `String` is the list of its bytes.
use Prim.Native.Char.{code}
use Prim.Native.String.{String}
use rust_mq.Base.{ℕ, ◌<◌, ◌*◌, List, [], ◌∷◌}
use rust_mq.Base.Utf8.{IsText}
use rust_mq.Base.{length}

abbrev pub Bytes : Type 0
Bytes = List ℕ

abbrev pub Text : Type 0
Text = List ℕ

abbrev pub IsByte : ℕ → Type 0
IsByte b = b < 256

abbrev pub IsU16 : ℕ → Type 0
IsU16 n = n < 65536

-- A text that a two-byte length can announce.
abbrev pub IsShort : Text → Type 0
IsShort s = IsText s × IsU16 (length s)

abbrev pub multiplier : ℕ
multiplier = 0x80 * 0x80 * 0x80 * 0x80

abbrev pub max_payload_size : ℕ
max_payload_size = 268435455

-- The code points of a text, which are its bytes if it is ASCII.
abbrev pub codes : String → Text
codes String.[] = []
codes (String.◌∷◌ c s) = code c ∷ codes s
