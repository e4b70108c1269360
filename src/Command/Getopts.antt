-- ===== src/Command/Getopts.antt =====
-- The package getopts as src/client/cli.rs calls it: the options that a command declares, and what is
-- asked of the arguments that matched them.
use Prim.Native.String.{String}
use rust_mq.Base.{◌≡◌, Bool, true, false, List, Option, none, some}
use rust_mq.Outcome.{Result}
use rust_mq.Mqtt3.Bytes.{Text}

-- `optopt` and `optflag`, by the short and the long name. The texts for the usage message are left out.
pub data Opt : Type 0 where
  optopt optflag : String → String → Opt

-- `Matches`: whether an option is there, its value, and the arguments that are no options.
pub record Matches : Type 0 where
  pub opt_present : String → Bool
  pub opt_str : String → Option Text
  pub free : List Text

-- `Options::parse`, with the text of its `Fail`.
abbrev pub Parser : Type 0
Parser = List Opt → List Text → Result Text Matches

abbrev pub is_some : {A : Type 0} → Option A → Bool
is_some none = false
is_some (some a) = true

-- An option that takes an argument is present just where it has a value.
abbrev pub HasValue : Matches → String → Type 0
HasValue m name = m.opt_present name ≡ is_some (m.opt_str name)

-- The options of the commands whose value is unwrapped.
abbrev pub HasValues : Matches → Type 0
HasValues m = HasValue m "p" × HasValue m "k" × HasValue m "v" × HasValue m "tls"
