-- ===== src/Netopt/Options.antt =====
-- `NetworkOptions` and `NetworkListener` of netopt/src/tcp.rs.
use rust_mq.Base.{Option, none, some}
use rust_mq.Outcome.{Outcome, done, Action, ◌>>=◌}
use rust_mq.Mqtt3.Errors.{ErrorKind}
use rust_mq.Netopt.Stream.{
  Tcp, Ssl, World, on_sockets, NetworkStream, tcp, ssl, wrapped, ssl_connect, ssl_accept, try_clone,
}

pub record NetworkOptions (T L X : Type 0) : Type 0 where
  pub ssl : Option X
  pub mock : Option (NetworkStream T L)

-- A `TcpListener` of the standard library.
pub record Listening (W T A B : Type 0) : Type 0 where
  pub bind : A → Action ErrorKind W B
  pub accept : B → Action ErrorKind W (T × A)

pub record NetworkListener (B X : Type 0) : Type 0 where
  pub tcp : B
  pub ssl : Option X

module _ {T L X : Type 0} where
  unfoldable pub new : NetworkOptions T L X
  new = record { ssl = none; mock = none }

  unfoldable pub attach : NetworkStream T L → NetworkOptions T L X → NetworkOptions T L X
  attach stream o = record o { mock = some stream }

  unfoldable pub tls : X → NetworkOptions T L X → NetworkOptions T L X
  tls context o = record o { ssl = some context }

module _ {W T L X A : Type 0} (tcps : Tcp W T A) (ssls : Ssl W T L X) where
  abbrev secured : Option X → T → World W → Outcome ErrorKind (World W) (NetworkStream T L)
  unfolding ssl_connect
  secured none stream w = done (tcp stream) w
  secured (some context) stream w =
      on_sockets w (wrapped ssl (ssl_connect tcps ssls context stream w.sockets))

  abbrev dialled :
      NetworkOptions T L X
      → A
      → Option (NetworkStream T L)
      → Action ErrorKind (World W) (NetworkStream T L)
  dialled o addr (some stream) = try_clone tcps ssls stream
  dialled o addr none = do
    stream ← λ w. on_sockets w (tcps.connect addr w.sockets)
    secured o.ssl stream

  unfoldable pub connect : A → NetworkOptions T L X → Action ErrorKind (World W) (NetworkStream T L)
  unfolding try_clone ssl_connect
  connect addr o = dialled o addr o.mock

  module _ {B : Type 0} (listening : Listening W T A B) where
    unfoldable pub bind :
        A → NetworkOptions T L X → Action ErrorKind (World W) (NetworkListener B X)
    bind addr o w =
        on_sockets w
          (wrapped (λ b. record { tcp = b; ssl = o.ssl }) (listening.bind addr w.sockets))

    abbrev taken : Option X → T × A → Action ErrorKind (World W) (NetworkStream T L × A)
    unfolding ssl_accept
    taken none (stream, addr) w = done (tcp stream, addr) w
    taken (some context) (stream, addr) w =
        on_sockets w (wrapped (λ l. (ssl l, addr)) (ssl_accept tcps ssls context stream w.sockets))

    unfoldable pub accept : NetworkListener B X → Action ErrorKind (World W) (NetworkStream T L × A)
    unfolding ssl_accept
    accept listener =
        (λ w. on_sockets w (listening.accept listener.tcp w.sockets)) >>= taken listener.ssl
