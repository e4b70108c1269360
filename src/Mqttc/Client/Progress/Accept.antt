-- ===== src/Mqttc/Client/Progress/Accept.antt =====
-- `accept` of mqttc/src/client.rs on a network from which only so much can be read, where the client does
-- not reconnect.
use rust_mq.Base.{
  ℕ, ◌+◌, ◌-◌, ◌*◌, ◌≤◌, ◌<◌, ◌≡◌, ◌⊎◌, refl, leb, Bool, true, false, Option, none, some,
  Bool-cases, inl, inr, arith,
}
use rust_mq.Outcome.{Outcome, done, failed, panicked, stuck, and_then, fail}
use rust_mq.Mqtt3.Errors.{ErrorKind}
use rust_mq.Mqtt3
use rust_mq.Mqtt3.Packet.{Packet}
use rust_mq.Mqtt3.Message.{Message}
use rust_mq.Mqttc.Errors.{Error, from_mqtt}
use rust_mq.Mqttc.Errors
use rust_mq.Mqttc.Store.{Store}
use rust_mq.Mqttc.Network.{Network}
use rust_mq.Mqttc.Options.{forever_disconnect}
use rust_mq.Mqttc.Client.{
  ClientState, handshake, connected, disconnected, Client, Method, with_conn, unbind,
}
use rust_mq.Mqttc.Client.Incoming.{parse_packet}
use rust_mq.Mqttc.Client.Life.{
  none_or_disconnected, try_reconnect, parsed, on_read_error, on_read, in_time, accept_in, accept,
}
use rust_mq.Mqttc.Client.Progress.{Goes, Takes, Finite, Answering, Under}
use rust_mq.Mqttc.Client.Progress.Arms.{parse_packet-Under}
use rust_mq.Mqttc.Client.Progress.Unbind.{unbind-Cut, after_Cut}

-- The timeouts that a client can still run into without a read: a PING and the end.
unfoldable pub phase_of : ClientState → Bool → ℕ
phase_of connected true = 1
phase_of connected false = 2
phase_of _ _ = 0

pub phase_small : (st : ClientState) (b : Bool) → phase_of st b ≤ 2
unfolding phase_of
phase_small connected true = omega arith
phase_small connected false = omega arith
phase_small handshake b = omega arith
phase_small disconnected b = omega arith

module _ {N S : Type 0} (left : N → ℕ) where
  abbrev pub phase : Client N S → ℕ
  phase c = phase_of c.state c.await_ping

  -- As many rounds as `await` can need.
  abbrev pub rounds_of : Client N S → ℕ
  rounds_of c = 3 * left c.conn + phase c

  abbrev pub Less : Client N S → Client N S → Type 0
  Less c c' = (left c'.conn < left c.conn) × (c'.opts.reconnect ≡ forever_disconnect)

  -- After a timeout: something was read, or the client is as it was.
  abbrev pub Quiet : Client N S → Client N S → Type 0
  Quiet c c' =
      (left c'.conn ≤ left c.conn)
      × (c'.opts.reconnect ≡ forever_disconnect)
      × ((left c'.conn < left c.conn) ⊎ ((c'.state ≡ c.state) × (c'.await_ping ≡ c.await_ping)))

  -- What `accept` gives.
  abbrev pub Accepted : Client N S → Outcome Error (Client N S) (Option Message) → Type 0
  Accepted c (done m c') = Less c c'
  Accepted c (failed Errors.timeout c') = Quiet c c'
  Accepted c (failed e c') = Unit
  Accepted c panicked = Unit
  Accepted c stuck = ⊥

  Goes-Accepted :
      (c : Client N S) (k : ℕ) (o : Outcome Error (Client N S) (Option Message))
      → k < left c.conn
      → Goes (Under left k) o
      → Accepted c o
  Goes-Accepted c k (done m c') h (l, f) = (omega (arith, h, l), f)
  Goes-Accepted c k (failed Errors.timeout c') h (l, f) =
      (omega (arith, h, l), f, inl (omega (arith, h, l)))
  Goes-Accepted c k (failed e c') h v = tt
  Goes-Accepted c k panicked h v = tt
  Goes-Accepted c k stuck h v = v

module _ {N S : Type 0} (net : Network N) (store : Store S) (left : N → ℕ)
    (finite : Finite net left) (answering : Answering store) where
  parsed-Accepted :
      (c : Client N S) (k : ℕ) (o : Outcome Error (Client N S) (Option Message))
      → k < left c.conn
      → Goes (Under left k) o
      → Accepted left c (parsed net store o)
  parsed-Accepted c k (failed Errors.connection_abort c') h v =
      after_Cut net store left finite answering (Accepted left c) k (unbind net c')
        (fail Errors.connection_abort) (unbind-Cut net store left finite answering k c' v) tt
        (λ _ _. tt)
  parsed-Accepted c k (done m c') h v = Goes-Accepted left c k (done m c') h v
  parsed-Accepted c k (failed Errors.timeout c') h (l, f) =
      (omega (arith, h, l), f, inl (omega (arith, h, l)))
  parsed-Accepted c k (failed e c') h v = tt
  parsed-Accepted c k panicked h v = tt
  parsed-Accepted c k stuck h v = v

  none-Accepted :
      (c c' : Client N S) (again : Method N S (Unit {0}))
      → c'.opts.reconnect ≡ forever_disconnect
      → Accepted left c (none_or_disconnected net store again c')
  unfolding none_or_disconnected try_reconnect
  none-Accepted c c' again f = rw f tt

  read_error-Accepted :
      (again : Method N S (Unit {0})) (e : Mqtt3.Errors.Error) (c : Client N S) (n : N)
      → c.opts.reconnect ≡ forever_disconnect
      → Takes left (left c.conn) (failed e n)
      → Accepted left c (on_read_error net store again e (record c { conn = n }))
  unfolding on_read_error from_mqtt
  read_error-Accepted again Mqtt3.Errors.Error.unexpected_eof c n f h = none-Accepted c _ again f
  read_error-Accepted again (Mqtt3.Errors.io ErrorKind.would_block) c n f h =
      (omega (arith, h), f, inl h)
  read_error-Accepted again (Mqtt3.Errors.io ErrorKind.timed_out) c n f h =
      (omega (arith, h), f, inl h)
  read_error-Accepted again (Mqtt3.Errors.io ErrorKind.other) c n f h =
      after_Cut net store left finite answering (Accepted left c) (left c.conn) (unbind net _)
        (fail _)
        (unbind-Cut net store left finite answering (left c.conn) (record c { conn = n }) (h, f)) tt
        (λ _ _. tt)
  read_error-Accepted again (Mqtt3.Errors.io _) c n f h =
      after_Cut net store left finite answering (Accepted left c) (left c.conn) (unbind net _) _
        (unbind-Cut net store left finite answering (left c.conn) (record c { conn = n }) (h, f)) tt
        (λ c' v. none-Accepted c c' again v.0.1)
  read_error-Accepted again e c n f h = tt

  read-Accepted :
      (again : Method N S (Unit {0})) (c : Client N S) (o : Outcome Mqtt3.Errors.Error N Packet)
      → c.opts.reconnect ≡ forever_disconnect
      → Takes left (left c.conn) o
      → Accepted left c (on_read net store again c o)
  read-Accepted again c (done p n) f h =
      parsed-Accepted c (left n) (parse_packet net store p (record c { conn = n })) h (
        parse_packet-Under net store left finite answering (left n) p (record c { conn = n })
          (omega arith, f))
  read-Accepted again c (failed e n) f h = read_error-Accepted again e c n f h
  read-Accepted again c panicked f h = tt
  read-Accepted again c stuck f h = h

  same-Accepted :
      (c : Client N S) (n : N) (o : Outcome Error (Client N S) (Option Message))
      → left n ≤ left c.conn
      → Accepted left (record c { conn = n }) o
      → Accepted left c o
  same-Accepted c n (done m c') h (l, f) = (omega (arith, h, l), f)
  same-Accepted c n (failed Errors.timeout c') h (l, f, inl less) =
      (omega (arith, h, l), f, inl (omega (arith, h, less)))
  same-Accepted c n (failed Errors.timeout c') h (l, f, inr same) =
      (omega (arith, h, l), f, inr same)
  same-Accepted c n (failed e c') h v = tt
  same-Accepted c n panicked h v = tt
  same-Accepted c n stuck h v = v

  set-Accepted :
      (again : Method N S (Unit {0})) (c : Client N S) (o : Outcome ErrorKind N (Unit {0}))
      → c.opts.reconnect ≡ forever_disconnect
      → Goes (λ n. left n ≤ left c.conn) o
      → Accepted left c
          (and_then (with_conn c o) (λ _ c'. on_read net store again c' (net.read_packet c'.conn)))
  set-Accepted again c (done _ n) f h =
      same-Accepted c n _ h
        (read-Accepted again (record c { conn = n }) (net.read_packet n) f (finite.reads n))
  set-Accepted again c (failed e n) f h = tt
  set-Accepted again c panicked f h = tt
  set-Accepted again c stuck f h = h

  timed-Accepted :
      (keep_alive : Option ℕ) (again : Method N S (Unit {0})) (c : Client N S)
      → c.opts.reconnect ≡ forever_disconnect
      → Accepted left c (
          and_then
            (in_time net store keep_alive c)
            (λ _ c'. on_read net store again c' (net.read_packet c'.conn)))
  timed-Accepted none again c f =
      read-Accepted again c (net.read_packet c.conn) f (finite.reads c.conn)
  timed-Accepted (some k) again c f = elim (Bool-cases (leb k (net.now c.conn - c.last_flush))) [
    | inl late ↦ rw late (omega arith, f, inr (refl, refl))
    | inr early ↦ rw early (set-Accepted again c _ f (finite.sets _ c.conn))
  ]

  accept_in-Accepted :
      (st : ClientState) (again : Method N S (Unit {0})) (c : Client N S)
      → c.opts.reconnect ≡ forever_disconnect
      → Accepted left c (accept_in net store st again c)
  unfolding accept_in
  accept_in-Accepted disconnected again c f = none-Accepted c c again f
  accept_in-Accepted handshake again c f = timed-Accepted c.opts.keep_alive again c f
  accept_in-Accepted connected again c f = timed-Accepted c.opts.keep_alive again c f

  pub accept-Accepted :
      (again : Method N S (Unit {0})) (c : Client N S)
      → c.opts.reconnect ≡ forever_disconnect
      → Accepted left c (accept net store again c)
  unfolding accept
  accept-Accepted again c f = accept_in-Accepted c.state again c f
