-- ===== src/Mqttc/Client/Progress/Await.antt =====
-- `await` of mqttc/src/client.rs ends on a network from which only so much can be read, where the
-- client does not reconnect.
use rust_mq.Base.{
  ℕ, zero, suc, ◌≤◌, ◌<◌, ◌≡◌, ◌⊎◌, refl, ◌∙◌, ap, Bool, true, false, not, Option, none, some,
  Bool-cases, inl, inr, arith, if◌then◌else◌,
}
use rust_mq.Outcome.{Outcome, done, failed, panicked, stuck, and_then, ◌>>◌}
use rust_mq.Mqtt3.Errors.{ErrorKind}
use rust_mq.Mqtt3
use rust_mq.Mqtt3.Packet.{Packet}
use rust_mq.Mqtt3.Message.{Message}
use rust_mq.Mqttc.Errors.{Error, from_mqtt}
use rust_mq.Mqttc.Errors
use rust_mq.Mqttc.Store.{Store}
use rust_mq.Mqttc.Network.{Network}
use rust_mq.Mqttc.Options.{forever_disconnect}
use rust_mq.Mqttc.Client.{
  ClientState, handshake, connected, disconnected, Client, Method, with_conn, dropped, write_packet,
  flush, written, flushed, ping, unbind, is_connected, normalized,
}
use rust_mq.Mqttc.Client.Life.{reconnect_with, round_end, on_timeout, await_round, await}
use rust_mq.Mqttc.Client.Progress.{Goes, Finite, Answering, Under}
use rust_mq.Mqttc.Client.Progress.Unbind.{after_Cut, unbind-Cut}
use rust_mq.Mqttc.Client.Progress.Accept.{
  phase_of, phase_small, phase, rounds_of, Quiet, Accepted, accept-Accepted,
}

module _ {N S : Type 0} (left : N → ℕ) where
  -- What `await` gives: a message was read, or there is none.
  abbrev pub Ended : ℕ → Outcome Error (Client N S) (Option Message) → Type 0
  Ended k (done (some m) c) = (left c.conn < k) × (c.opts.reconnect ≡ forever_disconnect)
  Ended k (done none c) = (left c.conn ≤ k) × (c.opts.reconnect ≡ forever_disconnect)
  Ended k (failed e c) = Unit
  Ended k panicked = Unit
  Ended k stuck = ⊥

  Ended-more :
      (k k' : ℕ) (o : Outcome Error (Client N S) (Option Message)) → k ≤ k' → Ended k o → Ended k' o
  Ended-more k k' (done (some m) c) h (l, f) = (omega (arith, h, l), f)
  Ended-more k k' (done none c) h (l, f) = (omega (arith, h, l), f)
  Ended-more k k' (failed e c) h v = tt
  Ended-more k k' panicked h v = tt
  Ended-more k k' stuck h v = v

  -- A client that is later on has fewer rounds before it.
  rounds_less :
      (fuel : ℕ) (c c' c'' : Client N S)
      → rounds_of left c < suc fuel
      → Quiet left c c'
      → left c''.conn ≤ left c'.conn
      → phase left c'' < phase left c'
      → rounds_of left c'' < fuel
  rounds_less fuel c c' c'' h (l, f, inl less) l' ph =
      omega (arith, h, less, l', phase_small c''.state c''.await_ping)
  rounds_less fuel c c' c'' h (l, f, inr (st, p)) l' ph =
      let same : phase left c' ≡ phase left c =
        ap (λ st. phase_of st c'.await_ping) st ∙ ap (phase_of c.state) p in
      omega (arith, h, l, l', ph, same)

  rounds_read :
      (fuel : ℕ) (c c' : Client N S)
      → rounds_of left c < suc fuel
      → left c'.conn < left c.conn
      → rounds_of left c' < fuel
  rounds_read fuel c c' h less = omega (arith, h, less, phase_small c'.state c'.await_ping)

ClientState-cases :
    (st : ClientState) → ((st ≡ connected) × (is_connected st ≡ true)) ⊎ (is_connected st ≡ false)
unfolding is_connected
ClientState-cases connected = inl (refl, refl)
ClientState-cases handshake = inr refl
ClientState-cases disconnected = inr refl

module _ {N S : Type 0} (net : Network N) (store : Store S) (left : N → ℕ)
    (finite : Finite net left) (answering : Answering store) where
  -- A client that waits for a PINGRESP, and is else as it was.
  abbrev Waits : ℕ → Client N S → Client N S → Type 0
  Waits k c c' = Under left k c' × (c'.state ≡ c.state) × (c'.await_ping ≡ c.await_ping)

  flush-Waits :
      (k : ℕ) (c : Client N S) (o : Outcome ErrorKind N (Unit {0}))
      → Under left k c
      → Goes (λ n. left n ≤ left c.conn) o
      → Goes (Waits k c) (flushed net (with_conn c o))
  flush-Waits k c (done _ n) (l, f) h = ((omega (arith, l, h), f), refl, refl)
  flush-Waits k c (failed e n) (l, f) h = ((omega (arith, l, h), f), refl, refl)
  flush-Waits k c panicked v h = tt
  flush-Waits k c stuck v h = h

  write-Waits :
      (k : ℕ) (c : Client N S) (o : Outcome Mqtt3.Errors.Error N (Unit {0}))
      → Under left k c
      → Goes (λ n. left n ≤ left c.conn) o
      → Goes (Waits k c) (and_then (written c o) (λ _. flush net))
  unfolding flush
  write-Waits k c (done _ n) (l, f) h =
      flush-Waits k (record c { conn = n }) (net.flush n) (omega (arith, l, h), f)
        (finite.flushes n)
  write-Waits k c (failed e n) v h = tt
  write-Waits k c panicked v h = tt
  write-Waits k c stuck v h = h

  ping-Waits :
      (k : ℕ) (c : Client N S)
      → Under left k c
      → Goes (Waits k (record c { await_ping = true })) (ping net c)
  unfolding ping write_packet
  ping-Waits k c v =
      write-Waits k (record c { await_ping = true }) (net.write_packet Packet.pingreq c.conn) v
        (finite.writes Packet.pingreq c.conn)

  module _ (fuel : ℕ) (next : Method N S (Option Message))
      (nexts : (c : Client N S)
        → c.opts.reconnect ≡ forever_disconnect
        → rounds_of left c < fuel
        → Ended left (left c.conn) (next c)) where
    round_end-Ended :
        (k : ℕ) (c : Client N S)
        → Under left k c
        → rounds_of left c < fuel
        → Ended left k (round_end net store next c)
    round_end-Ended k c (l, f) h = elim (Bool-cases (normalized c)) [
      | inl e ↦ rw e (l, f)
      | inr e ↦ rw e (Ended-more left (left c.conn) k (next c) l (nexts c f h))
    ]

    after_ping :
        (k : ℕ) (c : Client N S) (o : Outcome Error (Client N S) (Unit {0}))
        → Goes (Waits k (record c { await_ping = true })) o
        → ((c' : Client N S)
            → Waits k (record c { await_ping = true }) c'
            → rounds_of left c' < fuel)
        → Ended left k (and_then (dropped o) (λ _. round_end net store next))
    after_ping k c (done _ c') v h = round_end-Ended k c' v.0 (h c' v)
    after_ping k c (failed e c') v h = round_end-Ended k c' v.0 (h c' v)
    after_ping k c panicked v h = tt
    after_ping k c stuck v h = v

    -- A timeout of a connected client: a PING, or the end of the connection.
    connected-Ended :
        (c c' : Client N S) (b : Bool)
        → rounds_of left c < suc fuel
        → Quiet left c c'
        → c'.state ≡ connected
        → c'.await_ping ≡ b
        → Ended left (left c.conn) (
            (if not b
                then (λ c. dropped (ping net c)) >> round_end net store next
                else (unbind net >> round_end net store next))
              c')
    unfolding phase_of
    connected-Ended c c' false h quiet st fresh =
        let before : phase left c' ≡ 2 =
          ap (λ st. phase_of st c'.await_ping) st ∙ ap (phase_of connected) fresh in
        Ended-more left (left c'.conn) (left c.conn) _ quiet.0 (
          after_ping (left c'.conn) c' (ping net c')
            (ping-Waits (left c'.conn) c' (omega arith, quiet.1))
            λ c'' w.
              let after : phase left c'' ≡ 1 =
                ap (λ st. phase_of st c''.await_ping) (w.1 ∙ st) ∙ ap (phase_of connected) w.2 in
              rounds_less left fuel c c' c'' h quiet w.0.0 (omega (arith, before, after)))
    connected-Ended c c' true h quiet st waits =
        let before : phase left c' ≡ 1 =
          ap (λ st. phase_of st c'.await_ping) st ∙ ap (phase_of connected) waits in
        Ended-more left (left c'.conn) (left c.conn) _ quiet.0 (
          after_Cut net store left finite answering (Ended left (left c'.conn)) (left c'.conn)
            (unbind net c') (round_end net store next)
            (unbind-Cut net store left finite answering (left c'.conn) c' (omega arith, quiet.1)) tt
            λ c'' w.
              let after : phase left c'' ≡ 0 = ap (λ st. phase_of st c''.await_ping) w.1 in
              round_end-Ended (left c'.conn) c'' w.0
                (rounds_less left fuel c c' c'' h quiet w.0.0 (omega (arith, before, after))))

    timeout-Ended :
        (c c' : Client N S)
        → rounds_of left c < suc fuel
        → Quiet left c c'
        → Ended left (left c.conn) (on_timeout net store next c')
    timeout-Ended c c' h quiet = elim (ClientState-cases c'.state) [
      | inl (st, e) ↦ rw e (connected-Ended c c' c'.await_ping h quiet st refl)
      | inr other ↦ rw other tt
    ]

    await_round-Ended :
        (c : Client N S) (o : Outcome Error (Client N S) (Option Message))
        → rounds_of left c < suc fuel
        → Accepted left c o
        → Ended left (left c.conn) (await_round net store o next)
    unfolding await_round
    await_round-Ended c (done (some m) c') h less = less
    await_round-Ended c (done none c') h (l, f) =
        round_end-Ended (left c.conn) c' (omega (arith, l), f) (rounds_read left fuel c c' h l)
    await_round-Ended c (failed Errors.timeout c') h quiet = timeout-Ended c c' h quiet
    await_round-Ended c (failed e c') h v = tt
    await_round-Ended c panicked h v = tt
    await_round-Ended c stuck h v = v

  -- On a network from which only so much can be read, each packet or timeout taking something away
  -- and nothing that is written bringing more, and with a store that answers, `await` of a client
  -- that does not reconnect ends within three rounds for each unit that is left to be read and two
  -- more: it returns a message, and then less is left to be read, or no message, or an error, or it
  -- panics.
  pub await-Ended :
      (fuel : ℕ) (c : Client N S)
      → c.opts.reconnect ≡ forever_disconnect
      → rounds_of left c < fuel
      → Ended left (left c.conn) (await net store fuel c)
  unfolding await
  await-Ended zero c f h = absurd (omega (arith, h))
  await-Ended (suc fuel) c f h =
      await_round-Ended fuel (await net store fuel) (λ c f h. await-Ended fuel c f h) c _ h
        (accept-Accepted net store left finite answering
          (reconnect_with net store (await net store fuel)) c f)
