-- ===== src/Netopt/Examples.antt =====
-- The unit tests of netopt/src/mock.rs and tcp.rs, and the theorems at a mock stream.
use rust_mq.Base.{◌≡◌, refl, [], ◌∷◌, none, arith}
use rust_mq.Outcome.{done, panicked, and_then}
use rust_mq.Netopt.Mock.{MockStream, new_cursor, with_vec, next_vec, take_vec, swap, write, read}
use rust_mq.Netopt.Mock
use rust_mq.Netopt.Mock.Laws.{write_each, swap-write_each}
use rust_mq.Netopt.Stream.{Tcp, Ssl, World, mock}
use rust_mq.Netopt.Options.{NetworkOptions}
use rust_mq.Netopt.Options
use rust_mq.Netopt.Connection.{Connection, Wired, Buffered}
use rust_mq.Netopt.Connection
use rust_mq.Netopt.Connection.Receiving.{Takes, read-Takes, comes}
use rust_mq.Netopt.Connection.Delivery.{connect-flush}
use rust_mq.Netopt.Connection.Delivery

write_take_test :
    and_then (write (1 ∷ 2 ∷ 3 ∷ []) Mock.new) (λ _ m. done (take_vec m).0 (take_vec m).1)
    ≡ done (1 ∷ 2 ∷ 3 ∷ []) Mock.new
unfolding write Mock.new take_vec
write_take_test = refl

-- No sockets.
abbrev no_tcp : Tcp (Unit {0}) (Unit {0}) (Unit {0})
no_tcp = record {
  connect = λ a w. panicked;
  try_clone = λ t w. panicked;
  peer_addr = λ t w. panicked;
  shutdown = λ t how w. panicked;
  set_read_timeout = λ t dur w. panicked;
  set_write_timeout = λ t dur w. panicked;
  read = λ t n w. panicked;
  write = λ t msg w. panicked;
  flush = λ t w. panicked;
  mock_address = tt;
}

abbrev no_ssl : Ssl (Unit {0}) (Unit {0}) (Unit {0}) (Unit {0})
no_ssl = record {
  get_ref = λ l. tt;
  connect = λ x t w. (none, w);
  accept = λ x t w. (none, w);
  try_clone = λ l w. panicked;
  read = λ l n w. panicked;
  write = λ l msg w. panicked;
  flush = λ l w. panicked;
}

abbrev used_stream : MockStream
used_stream = record {
  reader = new_cursor (4 ∷ 5 ∷ 6 ∷ []);
  writer = record { position = 1; contents = 9 ∷ [] };
}

swap-write_each_example :
    (m₁ m₂ m₃ : MockStream) × (write_each ((1 ∷ 2 ∷ []) ∷ (3 ∷ []) ∷ []) used_stream ≡ done tt m₁)
    × ((take_vec m₁).0 ≡ 9 ∷ 1 ∷ 2 ∷ 3 ∷ [])
    × (read 8 (swap m₁) ≡ done (9 ∷ 1 ∷ 2 ∷ 3 ∷ []) m₂)
    × ((take_vec m₂).0 ≡ 4 ∷ 5 ∷ 6 ∷ [])
    × (write (7 ∷ []) m₂ ≡ done 1 m₃)
    × ((take_vec m₃).0 ≡ 7 ∷ 5 ∷ 6 ∷ [])
swap-write_each_example =
    swap-write_each ((1 ∷ 2 ∷ []) ∷ (3 ∷ []) ∷ []) (7 ∷ []) used_stream 8 refl (omega arith)

abbrev world : World (Unit {0})
world = record { sockets = tt; mocks = λ r. used_stream }

abbrev unused : NetworkOptions (Unit {0}) (Unit {0}) (Unit {0})
unused = record { ssl = none; mock = none }

connect-flush_example :
    (c : Connection (Unit {0}) (Unit {0})) × (s : Wired (Unit {0}) (Unit {0}) (Unit {0}))
    × (and_then
          (Options.connect no_tcp no_ssl tt (Options.attach (mock 2) unused) world)
          (Connection.new no_tcp no_ssl)
        ≡ done c world)
    × (and_then
          (Delivery.write_each no_tcp no_ssl ((1 ∷ 2 ∷ []) ∷ (3 ∷ []) ∷ []) (c, world))
          (λ _. Connection.flush no_tcp no_ssl)
        ≡ done tt s)
    × ((take_vec (s.1.mocks 2)).0 ≡ 9 ∷ 1 ∷ 2 ∷ 3 ∷ [])
    × (comes no_tcp no_ssl 2 s ≡ 4 ∷ 5 ∷ 6 ∷ [])
connect-flush_example =
    connect-flush no_tcp no_ssl unused tt 2 world ((1 ∷ 2 ∷ []) ∷ (3 ∷ []) ∷ []) refl

abbrev half_read : Connection (Unit {0}) (Unit {0})
half_read = record {
  stream = mock 2;
  reader = record { inner = mock 2; buf = 8 ∷ 7 ∷ [] };
  writer = record { inner = mock 2; buf = [] };
}

read-Takes_example :
    Takes no_tcp no_ssl 2 5 (half_read, world) (Connection.read no_tcp no_ssl 5 (half_read, world))
read-Takes_example = read-Takes no_tcp no_ssl 2 5 (half_read, world) refl
