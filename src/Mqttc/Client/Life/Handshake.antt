-- ===== src/Mqttc/Client/Life/Handshake.antt =====
-- The handshake of `ClientOptions::connect` in mqttc/src/client.rs with a server that accepts it.
use rust_mq.Base.{ℕ, suc, ◌-◌, leb, ◌≡◌, refl, ap, ◌∙◌, false, Option, none, some, arith}
use rust_mq.Outcome.{done}
use rust_mq.Mqtt3.Bytes.{Text}
use rust_mq.Mqtt3.ConnectReturnCode.{accepted}
use rust_mq.Mqtt3.Packet.{Packet, Connect, Connack}
use rust_mq.Mqttc.Store.{Store}
use rust_mq.Mqttc.Network.{Network}
use rust_mq.Mqttc.Options.{ClientOptions, generate_connect_packet}
use rust_mq.Mqttc.Client.{
  Client, Method, handshake, connected, is_connected, normalized, write_packet, flush,
}
use rust_mq.Mqttc.Client.Incoming.{on_connack, parse_in, parse_packet, is_accepted}
use rust_mq.Mqttc.Client.Life.{
  send_connect, handshake_with, in_time, accept_in, accept, await_round, await, parsed, with_id,
  fresh, connect,
}

minus_self : (m : ℕ) → m - m ≡ 0
minus_self m = omega arith

minus_zero : (m : ℕ) → m - 0 ≡ m
minus_zero m = omega arith

module _ {N S : Type 0} (net : Network N) (store : Store S) where
  -- The network after the keep-alive time of a new connection is set on it as the timeout of a read.
  abbrev pub Armed : Option ℕ → N → N → Type 0
  Armed none n n' = n' ≡ n
  Armed (some keep_alive) n n' =
      (leb keep_alive 0 ≡ false) × (net.set_read_timeout (some keep_alive) n ≡ done tt n')

  pub in_time-flushed :
      (k : Option ℕ) (c : Client N S) (n' : N)
      → c.last_flush ≡ net.now c.conn
      → Armed k c.conn n'
      → in_time net store k c ≡ done tt (record c { conn = n' })
  in_time-flushed none c n' e h = rw (h) refl
  in_time-flushed (some k) c n' e h =
      rw (e, minus_self (net.now c.conn), h.0, minus_zero k, h.1) refl

  accept_in-read :
      (again : Method N S (Unit {0})) (c : Client N S) (p : Packet) (n n' : N)
      → c.last_flush ≡ net.now c.conn
      → Armed c.opts.keep_alive c.conn n
      → net.read_packet n ≡ done p n'
      → accept_in net store connected again c
        ≡ parsed net store (parse_packet net store p (record c { conn = n' }))
  unfolding accept_in
  accept_in-read again c p n n' flushed armed read =
      rw (in_time-flushed c.opts.keep_alive c n flushed armed, read) refl

  -- A packet that a connected client reads in time is handled.
  pub accept-read :
      (again : Method N S (Unit {0})) (c : Client N S) (p : Packet) (n n' : N)
      → c.state ≡ connected
      → c.last_flush ≡ net.now c.conn
      → Armed c.opts.keep_alive c.conn n
      → net.read_packet n ≡ done p n'
      → accept net store again c
        ≡ parsed net store (parse_packet net store p (record c { conn = n' }))
  unfolding accept
  accept-read again c p n n' st flushed armed read =
      ap (λ st. accept_in net store st again c) st
      ∙ accept_in-read again c p n n' flushed armed read

  -- A server that answers the CONNECT with a CONNACK that accepts it, where the network connects,
  -- sends and flushes, and takes the keep-alive time, which is not zero, as its timeout: `connect`
  -- returns within one round of waiting, with a client that is connected, has the flag of the session
  -- from the CONNACK and the time of the flush, and is new in all else.
  pub connect-accepted :
      (fuel : ℕ) (generated : Text) (o opts : ClientOptions S) (packet : Connect) (k : Connack)
      (n n₁ n₂ n₃ n₄ n₅ : N)
      → with_id net store o.client_id generated o ≡ opts
      → generate_connect_packet opts ≡ some packet
      → net.connect opts.keep_alive n ≡ done tt n₁
      → net.write_packet (Packet.connect packet) n₁ ≡ done tt n₂
      → net.flush n₂ ≡ done tt n₃
      → Armed opts.keep_alive n₃ n₄
      → net.read_packet n₄ ≡ done (Packet.connack k) n₅
      → k.code ≡ accepted
      → connect net store (suc fuel) generated o n
        ≡ done tt (record (fresh net store opts n₅) {
          state = connected;
          session_present = k.session_present;
          last_flush = net.now n₃;
        })
  unfolding connect await accept accept_in await_round handshake_with send_connect write_packet
      flush parse_packet parse_in on_connack is_accepted normalized is_connected
  connect-accepted fuel generated o opts packet k n n₁ n₂ n₃ n₄ n₅ same made dialled sent flushed
        armed answered code =
      let c = record (fresh net store opts n₃) { state = handshake; last_flush = net.now n₃ } in
      rw
        (
          same,
          dialled,
          made,
          sent,
          flushed,
          in_time-flushed opts.keep_alive c n₄ refl armed,
          answered,
          code,
        )
        refl
