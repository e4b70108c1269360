-- ===== src/Mqttc/Client/Life.antt =====
-- The life of a connection in mqttc/src/client.rs: `accept`, `await`, `reconnect`, the handshake and
-- `ClientOptions::connect`. `await` and `reconnect` call each other: the calls of `reconnect` below
-- take the rest of the waiting as an argument, and `await` counts its rounds down.
pub mod Handshake
pub mod Steps
pub mod Waiting
pub mod Safety
use rust_mq.Base.{
  ℕ, zero, suc, ◌-◌, leb, Bool, true, false, not, List, [], ◌∷◌, ◌++◌, map, Option, none, some,
  if◌then◌else◌,
}
use rust_mq.Outcome.{
  Result, ok, err, Outcome, done, failed, panicked, stuck, Action, ◌>>=◌, ◌>>◌, pure, fail,
}
use rust_mq.Mqtt3.Bytes.{Text}
use rust_mq.Mqtt3.Errors.{ErrorKind}
use rust_mq.Mqtt3
use rust_mq.Mqtt3.PacketIdentifier
use rust_mq.Mqtt3.Packet.{Packet, Connect}
use rust_mq.Mqtt3.Message.{Message}
use rust_mq.Mqttc.Errors.{Error, from_mqtt, io, timeout}
use rust_mq.Mqttc.Errors
use rust_mq.Mqttc.Store.{Store}
use rust_mq.Mqttc.Network.{Network}
use rust_mq.Mqttc.Sub.{topics, to_subscribe_topic}
use rust_mq.Mqttc.Options.{
  ClientOptions, forever_disconnect, reconnect_after, set_client_id, generate_connect_packet,
}
use rust_mq.Mqttc.Client.{
  ClientState, handshake, connected, disconnected, is_connected, Client, Method, modify, with_conn,
  dropped, write_packet, flush, ping, unbind, normalized,
}
use rust_mq.Mqttc.Client.Outgoing.{subscribe_packet}
use rust_mq.Mqttc.Client.Incoming.{parse_packet}

module _ {N S : Type 0} (net : Network N) (store : Store S) where
  abbrev pub sent_connect : Option Connect → Method N S (Unit {0})
  sent_connect none = λ c. panicked
  sent_connect (some packet) = write_packet net (Packet.connect packet) >> flush net

  -- `_connect`, with the `unwrap` of the client's identifier.
  unfoldable pub send_connect : Method N S (Unit {0})
  unfolding generate_connect_packet
  send_connect c = sent_connect (generate_connect_packet c.opts) c

  -- `_handshake`, where `wait` is `await`.
  unfoldable pub handshake_with : Method N S (Option Message) → Method N S (Unit {0})
  unfolding send_connect
  handshake_with wait = do
    modify (λ c. record c { state = handshake })
    send_connect
    _ ← wait
    pure tt

  unfoldable pub resubscribe : Method N S (Unit {0})
  unfolding to_subscribe_topic
  resubscribe c =
      dropped (subscribe_packet net (topics (map (λ e. to_subscribe_topic e.1) c.subscriptions)) c)

  unfoldable pub reconnect_with : Method N S (Option Message) → Method N S (Unit {0})
  unfolding handshake_with resubscribe is_connected
  reconnect_with wait c =
      if is_connected c.state
      then done tt c
      else ((λ c. with_conn c (net.connect c.opts.keep_alive c.conn))
            >> handshake_with wait
            >> resubscribe)
          c

  -- `_try_reconnect`, where `again` is `reconnect`.
  unfoldable pub try_reconnect : Method N S (Unit {0}) → Method N S Bool
  try_reconnect again c = elim c.opts.reconnect [
    | forever_disconnect ↦ done false c
    | reconnect_after dur ↦
        (modify (λ c. record c { conn = net.sleep dur c.conn })
            >> (λ c. dropped (again c))
            >> pure true)
          c
  ]

  -- `if self._try_reconnect() { Ok(None) } else { Err(Error::Disconnected) }`.
  unfoldable pub none_or_disconnected : Method N S (Unit {0}) → Method N S (Option Message)
  unfolding try_reconnect
  none_or_disconnected again = do
    tried ← try_reconnect again
    (if tried then pure none else fail Errors.disconnected)

  abbrev pub parsed :
      Outcome Error (Client N S) (Option Message) → Outcome Error (Client N S) (Option Message)
  parsed (failed Errors.connection_abort c) = (unbind net >> fail Errors.connection_abort) c
  parsed o = o

  -- The `match err` of `accept`.
  unfoldable pub on_read_error :
      Method N S (Unit {0}) → Mqtt3.Errors.Error → Method N S (Option Message)
  on_read_error again Mqtt3.Errors.Error.unexpected_eof = none_or_disconnected again
  on_read_error again (Mqtt3.Errors.io ErrorKind.would_block) = fail timeout
  on_read_error again (Mqtt3.Errors.io ErrorKind.timed_out) = fail timeout
  on_read_error again (Mqtt3.Errors.io ErrorKind.other) = unbind net >> fail (io ErrorKind.other)
  on_read_error again (Mqtt3.Errors.io _) = unbind net >> none_or_disconnected again
  on_read_error again e = fail (from_mqtt e)

  abbrev pub on_read :
      Method N S (Unit {0})
      → Client N S
      → Outcome Mqtt3.Errors.Error N Packet
      → Outcome Error (Client N S) (Option Message)
  on_read again c (done packet n) = parsed (parse_packet net store packet (record c { conn = n }))
  on_read again c (failed e n) = on_read_error again e (record c { conn = n })
  on_read again c panicked = panicked
  on_read again c stuck = stuck

  -- The keep-alive test, with the timeout that is left for the read.
  abbrev pub in_time : Option ℕ → Method N S (Unit {0})
  in_time none c = done tt c
  in_time (some keep_alive) c =
      let elapsed = net.now c.conn - c.last_flush in
      if leb keep_alive elapsed
      then failed timeout c
      else with_conn c (net.set_read_timeout (some (keep_alive - elapsed)) c.conn)

  unfoldable pub accept_in : ClientState → Method N S (Unit {0}) → Method N S (Option Message)
  unfolding on_read_error
  accept_in disconnected again = none_or_disconnected again
  accept_in _ again =
      (λ c. in_time c.opts.keep_alive c) >> (λ c. on_read again c (net.read_packet c.conn))

  unfoldable pub accept : Method N S (Unit {0}) → Method N S (Option Message)
  unfolding accept_in
  accept again c = accept_in c.state again c

  -- The end of a round of `await`.
  abbrev pub return_none : Bool → Method N S (Option Message) → Method N S (Option Message)
  return_none true next c = done none c
  return_none false next c = next c

  abbrev pub round_end : Method N S (Option Message) → Method N S (Option Message)
  round_end next c = return_none (normalized c) next c

  abbrev pub on_timeout : Method N S (Option Message) → Method N S (Option Message)
  on_timeout next c =
      if is_connected c.state
      then (if not c.await_ping
            then (λ c. dropped (ping net c)) >> round_end next
            else (unbind net >> round_end next))
          c
      else failed timeout c

  unfoldable pub await_round :
      Outcome Error (Client N S) (Option Message)
      → Method N S (Option Message)
      → Outcome Error (Client N S) (Option Message)
  unfolding is_connected
  await_round (done (some message) c) next = done (some message) c
  await_round (done none c) next = round_end next c
  await_round (failed timeout c) next = on_timeout next c
  await_round (failed e c) next = failed e c
  await_round panicked next = panicked
  await_round stuck next = stuck

  -- `await` in at most `fuel` rounds, the rounds of a reconnection below it included.
  unfoldable pub await : ℕ → Method N S (Option Message)
  unfolding accept await_round reconnect_with
  await zero c = stuck
  await (suc fuel) c = await_round (accept (reconnect_with (await fuel)) c) (await fuel)

  unfoldable pub reconnect : ℕ → Method N S (Unit {0})
  unfolding reconnect_with
  reconnect fuel = reconnect_with (await fuel)

  abbrev pub with_id : Option Text → Text → ClientOptions S → ClientOptions S
  with_id none generated o = set_client_id generated o
  with_id (some id) generated o = o

  -- The client that `connect` builds.
  abbrev pub fresh : ClientOptions S → N → Client N S
  fresh opts conn = record {
    state = disconnected;
    opts = opts;
    conn = conn;
    session_present = false;
    last_flush = net.now conn;
    last_pid = PacketIdentifier.zero;
    await_ping = false;
    incomming_pub = [];
    incomming_rec = [];
    incomming_rel = [];
    outgoing_ack = [];
    outgoing_rec = [];
    outgoing_comp = [];
    await_suback = [];
    await_unsuback = [];
    subscriptions = [];
  }

  abbrev pub opened :
      ℕ → ClientOptions S → Outcome ErrorKind N (Unit {0}) → Outcome Error (Client N S) (Unit {0})
  opened fuel opts (done _ n) = handshake_with (await fuel) (fresh opts n)
  opened fuel opts (failed e n) = failed (io e) (fresh opts n)
  opened fuel opts panicked = panicked
  opened fuel opts stuck = stuck

  -- `ClientOptions::connect`; `generated` is the identifier that `generate_client_id` makes. After
  -- an error no client is left for the caller.
  unfoldable pub connect : ℕ → Text → ClientOptions S → N → Outcome Error (Client N S) (Unit {0})
  unfolding set_client_id
  connect fuel generated o n =
      let opts = with_id o.client_id generated o in opened fuel opts (net.connect opts.keep_alive n)
