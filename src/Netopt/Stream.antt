-- ===== src/Netopt/Stream.antt =====
-- `NetworkStream` of netopt/src/tcp.rs, with `SslContext` of netopt/src/ssl.rs. The sockets of the
-- standard library and the streams of openssl are parameters: `W` is the state behind them, `T` a
-- `TcpStream`, `L` an `SslStream`, `X` a context and `A` an address.
use rust_mq.Base.{ℕ, ◌==◌, Option, none, some, if◌then◌else◌}
use rust_mq.Outcome.{Outcome, done, failed, panicked, stuck, Action}
use rust_mq.Mqtt3.Bytes.{Bytes}
use rust_mq.Mqtt3.Errors.{ErrorKind, connection_aborted}
use rust_mq.Netopt.Mock.{MockStream}
use rust_mq.Netopt.Mock

pub data Shutdown : Type 0 where
  shut_read shut_write shut_both : Shutdown

-- A `TcpStream`.
pub record Tcp (W T A : Type 0) : Type 0 where
  pub connect : A → Action ErrorKind W T
  pub try_clone : T → Action ErrorKind W T
  pub peer_addr : T → Action ErrorKind W A
  pub shutdown : T → Shutdown → Action ErrorKind W (Unit {0})
  pub set_read_timeout : T → Option ℕ → Action ErrorKind W (Unit {0})
  pub set_write_timeout : T → Option ℕ → Action ErrorKind W (Unit {0})
  pub read : T → ℕ → Action ErrorKind W Bytes
  pub write : T → Bytes → Action ErrorKind W ℕ
  pub flush : T → Action ErrorKind W (Unit {0})
  -- `Ipv4Addr::new(127, 0, 0, 1)` with the port 80.
  pub mock_address : A

-- An `ssl::SslStream`. `connect` and `accept` give `none` where the handshake fails.
pub record Ssl (W T L X : Type 0) : Type 0 where
  pub get_ref : L → T
  pub connect : X → T → W → Option L × W
  pub accept : X → T → W → Option L × W
  pub try_clone : L → Action ErrorKind W L
  pub read : L → ℕ → Action ErrorKind W Bytes
  pub write : L → Bytes → Action ErrorKind W ℕ
  pub flush : L → Action ErrorKind W (Unit {0})

-- The sockets, and the mock streams by the references that clones share.
pub record World (W : Type 0) : Type 0 where
  pub sockets : W
  pub mocks : ℕ → MockStream

module _ {W : Type 0} where
  abbrev pub on_sockets :
      {B : Type 0} → World W → Outcome ErrorKind W B → Outcome ErrorKind (World W) B
  on_sockets w (done b s) = done b (record w { sockets = s })
  on_sockets w (failed e s) = failed e (record w { sockets = s })
  on_sockets w panicked = panicked
  on_sockets w stuck = stuck

  abbrev pub set_mock : World W → ℕ → MockStream → World W
  set_mock w r m = record w { mocks = λ k. if k == r then m else w.mocks k }

  abbrev pub on_mock :
      {B : Type 0} → World W → ℕ → Outcome ErrorKind MockStream B → Outcome ErrorKind (World W) B
  on_mock w r (done b m) = done b (set_mock w r m)
  on_mock w r (failed e m) = failed e (set_mock w r m)
  on_mock w r panicked = panicked
  on_mock w r stuck = stuck

-- A failed handshake is an aborted connection.
abbrev pub or_aborted : {W L : Type 0} → Option L × W → Outcome ErrorKind W L
or_aborted (none, w) = failed connection_aborted w
or_aborted (some l, w) = done l w

pub data NetworkStream (T L : Type 0) : Type 0 where
  tcp : T → NetworkStream T L
  ssl : L → NetworkStream T L
  mock : ℕ → NetworkStream T L

abbrev pub wrapped : {E S A B : Type 0} → (A → B) → Outcome E S A → Outcome E S B
wrapped f (done a s) = done (f a) s
wrapped f (failed e s) = failed e s
wrapped f panicked = panicked
wrapped f stuck = stuck

module _ {W T L X A : Type 0} (tcps : Tcp W T A) (ssls : Ssl W T L X) where
  -- `SslContext::accept` and `connect`.
  unfoldable pub ssl_accept : X → T → Action ErrorKind W L
  ssl_accept context stream s = or_aborted (ssls.accept context stream s)

  unfoldable pub ssl_connect : X → T → Action ErrorKind W L
  ssl_connect context stream s = or_aborted (ssls.connect context stream s)

  unfoldable pub try_clone : NetworkStream T L → Action ErrorKind (World W) (NetworkStream T L)
  try_clone (tcp t) w = on_sockets w (wrapped tcp (tcps.try_clone t w.sockets))
  try_clone (ssl l) w = on_sockets w (wrapped ssl (ssls.try_clone l w.sockets))
  try_clone (mock r) w = done (mock r) w

  unfoldable pub peer_addr : NetworkStream T L → Action ErrorKind (World W) A
  peer_addr (tcp t) w = on_sockets w (tcps.peer_addr t w.sockets)
  peer_addr (ssl l) w = on_sockets w (tcps.peer_addr (ssls.get_ref l) w.sockets)
  peer_addr (mock r) w = done tcps.mock_address w

  unfoldable pub shutdown : NetworkStream T L → Shutdown → Action ErrorKind (World W) (Unit {0})
  shutdown (tcp t) how w = on_sockets w (tcps.shutdown t how w.sockets)
  shutdown (ssl l) how w = on_sockets w (tcps.shutdown (ssls.get_ref l) how w.sockets)
  shutdown (mock r) how w = done tt w

  unfoldable pub set_read_timeout :
      NetworkStream T L → Option ℕ → Action ErrorKind (World W) (Unit {0})
  set_read_timeout (tcp t) dur w = on_sockets w (tcps.set_read_timeout t dur w.sockets)
  set_read_timeout (ssl l) dur w =
      on_sockets w (tcps.set_read_timeout (ssls.get_ref l) dur w.sockets)
  set_read_timeout (mock r) dur w = done tt w

  unfoldable pub set_write_timeout :
      NetworkStream T L → Option ℕ → Action ErrorKind (World W) (Unit {0})
  set_write_timeout (tcp t) dur w = on_sockets w (tcps.set_write_timeout t dur w.sockets)
  set_write_timeout (ssl l) dur w =
      on_sockets w (tcps.set_write_timeout (ssls.get_ref l) dur w.sockets)
  set_write_timeout (mock r) dur w = done tt w

  unfoldable pub read : NetworkStream T L → ℕ → Action ErrorKind (World W) Bytes
  unfolding Mock.read
  read (tcp t) n w = on_sockets w (tcps.read t n w.sockets)
  read (ssl l) n w = on_sockets w (ssls.read l n w.sockets)
  read (mock r) n w = on_mock w r (Mock.read n (w.mocks r))

  unfoldable pub write : NetworkStream T L → Bytes → Action ErrorKind (World W) ℕ
  unfolding Mock.write
  write (tcp t) msg w = on_sockets w (tcps.write t msg w.sockets)
  write (ssl l) msg w = on_sockets w (ssls.write l msg w.sockets)
  write (mock r) msg w = on_mock w r (Mock.write msg (w.mocks r))

  unfoldable pub flush : NetworkStream T L → Action ErrorKind (World W) (Unit {0})
  unfolding Mock.flush
  flush (tcp t) w = on_sockets w (tcps.flush t w.sockets)
  flush (ssl l) w = on_sockets w (ssls.flush l w.sockets)
  flush (mock r) w = on_mock w r (Mock.flush (w.mocks r))
