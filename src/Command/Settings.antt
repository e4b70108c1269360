-- ===== src/Command/Settings.antt =====
-- The options that the two commands have in common, as src/client/cli.rs reads them, and how a command
-- line ends. The messages of `cli_error` are named, not spelt.
pub mod Laws
use Prim.Native.String.{String}
use rust_mq.Base.{ℕ, Bool, true, false, Option, none, some, bytes_eq, if◌then◌else◌}
use rust_mq.Outcome.{Result, ok, err, panicked, Action, pure, fail}
use rust_mq.Mqtt3.Bytes.{Text, codes}
use rust_mq.Mqtt3.Protocol.{Protocol, mq_isdp, mqtt}
use rust_mq.Mqtt3.Qos.{Qos}
use rust_mq.Mqtt3.Qos
use rust_mq.Mqtt3.Errors
use rust_mq.Command.Numbers.{parse_u8, parse_u16}
use rust_mq.Command.Getopts.{Matches}
use rust_mq.Command.Tls.{SslMethod, tlsv1, tlsv1_1, tlsv1_2}

pub data CliError : Type 0 where
  getopts_error : Text → CliError
  topic_missing message_and_file port_format keep_alive_format : CliError
  unsupported_protocol unsupported_tls unsupported_qos qos_format will_incomplete : CliError

-- `exit` in the parser: after a usage text, or by `cli_error`.
pub data Exit : Type 0 where
  usage_shown : Exit
  cli_error : CliError → Exit

unfoldable pub status : Exit → ℕ
status usage_shown = 0
status (cli_error e) = 64

-- `matches.opt_str(name).unwrap_or(default)`.
abbrev pub unwrap_or : {A : Type 0} → Option A → A → A
unwrap_or none d = d
unwrap_or (some a) d = a

module _ {W : Type 0} where
  abbrev number : CliError → Option ℕ → Action Exit W ℕ
  number e none = fail (cli_error e)
  number e (some n) = pure n

  -- `matches.opt_str(name).unwrap()` on an option that is present.
  abbrev value : {A : Type 0} → Option Text → (Text → Action Exit W A) → Action Exit W A
  value none use_it w = panicked
  value (some s) use_it w = use_it s w

  -- The number of 16 bits that an option has, if it is present.
  abbrev u16_option : Matches → String → CliError → ℕ → Action Exit W ℕ
  u16_option m name e default =
      if m.opt_present name
      then value (m.opt_str name) (λ s. number e (parse_u16 s))
      else pure default

  unfoldable pub port_of : Matches → ℕ → Action Exit W ℕ
  port_of m default = u16_option m "p" port_format default

  unfoldable pub keep_alive_of : Matches → ℕ → Action Exit W ℕ
  keep_alive_of m default = u16_option m "k" keep_alive_format default

  abbrev version : Text → Action Exit W Protocol
  version s =
      if bytes_eq s (codes "3.1")
      then pure (mq_isdp 3)
      else if bytes_eq s (codes "3.1.1")
      then pure (mqtt 4)
      else fail (cli_error unsupported_protocol)

  unfoldable pub protocol_of : Matches → Protocol → Action Exit W Protocol
  protocol_of m default = if m.opt_present "v" then value (m.opt_str "v") version else pure default

  abbrev method : Text → Action Exit W (Option SslMethod)
  method s =
      if bytes_eq s (codes "1")
      then pure (some tlsv1)
      else if bytes_eq s (codes "1.1")
      then pure (some tlsv1_1)
      else if bytes_eq s (codes "1.2")
      then pure (some tlsv1_2)
      else fail (cli_error unsupported_tls)

  unfoldable pub ssl_method_of : Matches → Action Exit W (Option SslMethod)
  ssl_method_of m = if m.opt_present "tls" then value (m.opt_str "tls") method else pure none

  abbrev qos_of_u8 : Result Errors.Error Qos → Action Exit W Qos
  qos_of_u8 (ok q) = pure q
  qos_of_u8 (err e) = fail (cli_error unsupported_qos)

  abbrev qos_of_number : Option ℕ → Action Exit W Qos
  qos_of_number none = fail (cli_error qos_format)
  qos_of_number (some v) = qos_of_u8 (Qos.from_u8 v)

  unfoldable pub parse_qos : Text → Action Exit W Qos
  parse_qos s = qos_of_number (parse_u8 s)

  -- `map_or(default, |s| self.parse_qos(s))`.
  unfoldable pub qos_or : Option Text → Qos → Action Exit W Qos
  unfolding parse_qos
  qos_or none default = pure default
  qos_or (some s) default = parse_qos s
