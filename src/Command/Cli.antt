-- ===== src/Command/Cli.antt =====
-- `CLI` of src/client/cli.rs: the choice of the command.
use rust_mq.Base.{List, [], ◌∷◌, ◌||◌, bytes_eq, if◌then◌else◌}
use rust_mq.Outcome.{panicked, Action, ◌>>=◌, pure, fail}
use rust_mq.Mqtt3.Bytes.{Text, codes}
use rust_mq.Command.Getopts.{Parser}
use rust_mq.Command.Tls.{Openssl}
use rust_mq.Command.Settings.{Exit, usage_shown}
use rust_mq.Command.Publish.{PublishCommand, publish_parse}
use rust_mq.Command.Subscribe.{SubscribeCommand, subscribe_parse}

pub record Cli : Type 0 where
  pub program : Text
  pub command : Text
  pub arguments : List Text

-- `CLI::new`: `remove(0)` panics on no argument at all.
unfoldable pub new : {E W : Type 0} → List Text → Action E W Cli
new [] = λ w. panicked
new (program ∷ []) = pure (record { program = program; command = codes "help"; arguments = [] })
new (program ∷ command ∷ arguments) =
    pure (record { program = program; command = command; arguments = arguments })

-- A `Box<Command>`.
pub data Command (C : Type 0) : Type 0 where
  subscribe : SubscribeCommand C → Command C
  publish : PublishCommand C → Command C

module _ {W C : Type 0} (ssl : Openssl W C) (parser : Parser) where
  unfoldable pub parse : Cli → Action Exit W (Command C)
  unfolding subscribe_parse publish_parse bytes_eq
  parse cli =
      if bytes_eq cli.command (codes "subscribe") || bytes_eq cli.command (codes "sub")
      then (subscribe_parse ssl parser cli.arguments >>= λ c. pure (subscribe c))
      else if bytes_eq cli.command (codes "publish") || bytes_eq cli.command (codes "pub")
      then (publish_parse ssl parser cli.arguments >>= λ c. pure (publish c))
      else fail usage_shown
