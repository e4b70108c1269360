-- ===== src/Mqttc/Client/Life/Safety.antt =====
-- `accept`, `await`, `reconnect` and `connect` of mqttc/src/client.rs keep the client valid, whatever
-- the network and the store answer.
use rust_mq.Base.{
  ℕ, zero, suc, ◌-◌, leb, ◌≡◌, refl, Bool, true, false, not, Option, none, some, Bool-cases, inl,
  inr, arith,
}
use rust_mq.Outcome.{Outcome, done, failed, panicked, stuck, and_then}
use rust_mq.Mqtt3.Bytes.{Text}
use rust_mq.Mqtt3.Errors.{ErrorKind}
use rust_mq.Mqtt3
use rust_mq.Mqtt3.Packet.{Packet}
use rust_mq.Mqtt3.Message.{Message}
use rust_mq.Mqttc.Errors.{Error, StoreError}
use rust_mq.Mqttc.Errors
use rust_mq.Mqttc.Store.{Store}
use rust_mq.Mqttc.Network.{Network}
use rust_mq.Mqttc.Options.{
  ClientOptions, ReconnectMethod, forever_disconnect, reconnect_after, set_client_id,
}
use rust_mq.Mqttc.Client.{
  ClientState, handshake, connected, disconnected, is_connected, Client, Method, ping, unbind,
  normalized,
}
use rust_mq.Mqttc.Client.Life.{
  reconnect_with, try_reconnect, none_or_disconnected, parsed, on_read_error, on_read, in_time,
  accept_in, accept, round_end, on_timeout, await_round, await, return_none, fresh, with_id, opened,
  connect,
}
use rust_mq.Mqttc.Client.Invariant.{
  IsSome, IsValid, Holds, Holds-bind, Holds-dropped, with_conn-Holds,
}
use rust_mq.Mqttc.Client.Incoming.Safety.{parse_packet-Holds}
use rust_mq.Mqttc.Client.Life.Steps.{
  Keeps, any-Answers, any-Calm, any-IsWelcome, unbind-Keeps, ping-Keeps, handshake-Keeps,
  reconnect-Keeps,
}

module _ {N S : Type 0} (net : Network N) (store : Store S) where
  module _ (again : Method N S (Unit {0})) (agains : Keeps again) where
    try_reconnect-Keeps :
        (r : ReconnectMethod) (c : Client N S)
        → c.opts.reconnect ≡ r
        → IsValid c
        → Holds Unit (try_reconnect net store again c)
    unfolding try_reconnect
    try_reconnect-Keeps forever_disconnect c e v = rw e v
    try_reconnect-Keeps (reconnect_after dur) c e v =
        rw e (Holds-bind Unit _ _ (Holds-dropped Unit _ (agains _ v)) λ _ _ w. w)

    none_or_disconnected-Keeps : Keeps (none_or_disconnected net store again)
    unfolding none_or_disconnected
    none_or_disconnected-Keeps c v =
        Holds-bind Unit (try_reconnect net store again c) _
          (try_reconnect-Keeps c.opts.reconnect c refl v)
          λ tried c₁ v₁. elim (Bool-cases tried) [ inl e ↦ rw e v₁ | inr e ↦ rw e v₁ ]

    parsed-Holds :
        (o : Outcome Error (Client N S) (Option Message))
        → Holds Unit o
        → Holds Unit (parsed net store o)
    parsed-Holds (failed Errors.connection_abort c) v =
        Holds-bind Unit (unbind net c) _ (unbind-Keeps net store c v) λ _ c₁ v₁. v₁
    parsed-Holds (done a c) v = v
    parsed-Holds panicked v = v
    parsed-Holds stuck v = v
    parsed-Holds (failed e c) v = v

    on_read_error-Keeps : (e : Mqtt3.Errors.Error) → Keeps (on_read_error net store again e)
    unfolding on_read_error
    on_read_error-Keeps Mqtt3.Errors.Error.unexpected_eof c v = none_or_disconnected-Keeps c v
    on_read_error-Keeps (Mqtt3.Errors.io ErrorKind.would_block) c v = v
    on_read_error-Keeps (Mqtt3.Errors.io ErrorKind.timed_out) c v = v
    on_read_error-Keeps (Mqtt3.Errors.io ErrorKind.other) c v =
        Holds-bind Unit (unbind net c) _ (unbind-Keeps net store c v) λ _ c₁ v₁. v₁
    on_read_error-Keeps (Mqtt3.Errors.io _) c v =
        Holds-bind Unit (unbind net c) _ (unbind-Keeps net store c v)
          λ _ c₁ v₁. none_or_disconnected-Keeps c₁ v₁
    on_read_error-Keeps e c v = v

    on_read-Holds :
        (c : Client N S) (o : Outcome Mqtt3.Errors.Error N Packet)
        → IsValid c
        → Holds Unit (on_read net store again c o)
    on_read-Holds c (done packet n) v =
        parsed-Holds _
          (parse_packet-Holds Unit net store (any-Calm net store) packet _ (any-IsWelcome packet) v)
    on_read-Holds c (failed e n) v = on_read_error-Keeps e _ v
    on_read-Holds c panicked v = tt
    on_read-Holds c stuck v = tt

    in_time-Holds : (k : Option ℕ) (c : Client N S) → IsValid c → Holds Unit (in_time net store k c)
    in_time-Holds none c v = v
    in_time-Holds (some k) c v = elim (Bool-cases (leb k (net.now c.conn - c.last_flush))) [
      | inl e ↦ rw e v
      | inr e ↦ rw e (
          with_conn-Holds Unit c
            (net.set_read_timeout (some (k - (net.now c.conn - c.last_flush))) c.conn)
            (any-Answers _) v)
    ]

    in_and_read :
        (c : Client N S)
        → IsValid c
        → Holds Unit (
            and_then
              (in_time net store c.opts.keep_alive c)
              (λ _ c. on_read net store again c (net.read_packet c.conn)))
    in_and_read c v =
        Holds-bind Unit (in_time net store c.opts.keep_alive c) _
          (in_time-Holds c.opts.keep_alive c v)
          λ _ c₁ v₁. on_read-Holds c₁ (net.read_packet c₁.conn) v₁

    accept_in-Keeps : (st : ClientState) → Keeps (accept_in net store st again)
    unfolding accept_in
    accept_in-Keeps disconnected c v = none_or_disconnected-Keeps c v
    accept_in-Keeps handshake c v = in_and_read c v
    accept_in-Keeps connected c v = in_and_read c v

    pub accept-Keeps : Keeps (accept net store again)
    unfolding accept
    accept-Keeps c v = accept_in-Keeps c.state c v

  module _ (next : Method N S (Option Message)) (nexts : Keeps next) where
    return_none-Keeps : (b : Bool) → Keeps (return_none net store b next)
    return_none-Keeps true c v = v
    return_none-Keeps false c v = nexts c v

    round_end-Keeps : Keeps (round_end net store next)
    round_end-Keeps c v = return_none-Keeps (normalized c) c v

    on_timeout-Keeps : Keeps (on_timeout net store next)
    on_timeout-Keeps c v = elim (Bool-cases (is_connected c.state)) [
      | inr e ↦ rw e v
      | inl e ↦ rw e (elim (Bool-cases (not c.await_ping)) [
        | inl p ↦ rw p (
            Holds-bind Unit _ _ (Holds-dropped Unit (ping net c) (ping-Keeps net store c v))
              λ _ c₁ v₁. round_end-Keeps c₁ v₁)
        | inr p ↦ rw p (
            Holds-bind Unit (unbind net c) _ (unbind-Keeps net store c v)
              λ _ c₁ v₁. round_end-Keeps c₁ v₁)
      ])
    ]

    await_round-Holds :
        (o : Outcome Error (Client N S) (Option Message))
        → Holds Unit o
        → Holds Unit (await_round net store o next)
    unfolding await_round
    await_round-Holds (done (some m) c) v = v
    await_round-Holds (done none c) v = round_end-Keeps c v
    await_round-Holds (failed Errors.timeout c) v = on_timeout-Keeps c v
    await_round-Holds (failed e c) v = v
    await_round-Holds panicked v = tt
    await_round-Holds stuck v = tt

  pub await-Keeps : (fuel : ℕ) → Keeps (await net store fuel)
  unfolding await
  await-Keeps zero c v = tt
  await-Keeps (suc fuel) c v = await_round-Holds (await net store fuel) (await-Keeps fuel) _ (
      accept-Keeps (reconnect_with net store (await net store fuel))
        (reconnect-Keeps net store (await net store fuel) (await-Keeps fuel)) c v)

  fresh-IsValid :
      (opts : ClientOptions S) (n : N) → IsSome opts.client_id → IsValid (fresh net store opts n)
  fresh-IsValid opts n h = record {
    has_id = h;
    last_pid = omega arith;
    acks_Queued = tt;
    recs_Queued = tt;
    held_Queued = tt;
  }

  with_id-IsSome :
      (id : Option Text) (generated : Text) (o : ClientOptions S)
      → o.client_id ≡ id
      → IsSome (with_id net store id generated o).client_id
  unfolding set_client_id
  with_id-IsSome none generated o e = tt
  with_id-IsSome (some id) generated o e = rw e tt

  opened-Holds :
      (fuel : ℕ) (opts : ClientOptions S) (o : Outcome ErrorKind N (Unit {0}))
      → IsSome opts.client_id
      → Holds Unit (opened net store fuel opts o)
  opened-Holds fuel opts (done _ n) h =
      handshake-Keeps net store (await net store fuel) (await-Keeps fuel) _ (fresh-IsValid opts n h)
  opened-Holds fuel opts (failed e n) h = fresh-IsValid opts n h
  opened-Holds fuel opts panicked h = tt
  opened-Holds fuel opts stuck h = tt

  pub connect-Holds :
      (fuel : ℕ) (generated : Text) (o : ClientOptions S) (n : N)
      → Holds Unit (connect net store fuel generated o n)
  unfolding connect
  connect-Holds fuel generated o n =
      opened-Holds fuel _ _ (with_id-IsSome o.client_id generated o refl)
