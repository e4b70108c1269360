-- ===== src/Mqttc/Dial.antt =====
-- `ClientOptions::_reconnect` of mqttc/src/client.rs on the streams of netopt: what a client has as
-- `connect` of its network.
use rust_mq.Base.{ℕ, ◌≡◌, refl, [], Option}
use rust_mq.Outcome.{Outcome, done, failed, panicked, Action, ◌>>=◌, ◌>>◌, pure}
use rust_mq.Mqtt3.Errors.{ErrorKind}
use rust_mq.Netopt.Stream.{Tcp, Ssl, World, NetworkStream, mock}
use rust_mq.Netopt.Stream
use rust_mq.Netopt.Options.{NetworkOptions}
use rust_mq.Netopt.Options
use rust_mq.Netopt.Connection.{Connection}
use rust_mq.Netopt.Connection

-- `unwrap` on an `io::Result`.
abbrev unwrapped : {S A : Type 0} → Outcome ErrorKind S A → Outcome ErrorKind S A
unwrapped (failed e s) = panicked
unwrapped o = o

module _ {W T L X A : Type 0} (tcps : Tcp W T A) (ssls : Ssl W T L X) where
  unfoldable pub dial :
      Option ℕ
      → A
      → NetworkOptions T L X
      → Action ErrorKind (World W) (Connection T L × NetworkStream T L)
  unfolding Options.connect Stream.set_read_timeout Stream.set_write_timeout Connection.new
  dial keep_alive addr netopt = do
    stream ← Options.connect tcps ssls addr netopt
    (λ w. unwrapped (Stream.set_read_timeout tcps ssls stream keep_alive w))
    (λ w. unwrapped (Stream.set_write_timeout tcps ssls stream keep_alive w))
    conn ← Connection.new tcps ssls stream
    pure (conn, stream)

  -- Over an attached mock stream a new connection is made whatever the address and the keep-alive time
  -- are, with empty buffers and nothing done to the streams.
  dial-mock :
      (keep_alive : Option ℕ) (addr : A) (o : NetworkOptions T L X) (r : ℕ) (w : World W)
      → dial keep_alive addr (Options.attach (mock r) o) w
        ≡ done
            (
              record {
                stream = mock r;
                reader = record { inner = mock r; buf = [] };
                writer = record { inner = mock r; buf = [] };
              },
              mock r,
            )
            w
  unfolding dial Options.connect Options.attach Stream.try_clone Stream.set_read_timeout
      Stream.set_write_timeout Connection.new
  dial-mock keep_alive addr o r w = refl
