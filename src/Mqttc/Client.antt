-- ===== src/Mqttc/Client.antt =====
-- The state of `Client` in mqttc/src/client.rs, with the small operations on it. `N` is the state of
-- the network and `S` that of a store.
pub mod Invariant
pub mod Outgoing
pub mod Incoming
pub mod Life
pub mod Session
pub mod Flow
pub mod Progress
use rust_mq.Base.{
  ℕ, ◌-◌, ◌==◌, Bool, true, false, ◌&&◌, List, [], ◌∷◌, ◌++◌, Option, none, some, length,
}
use rust_mq.Base
use rust_mq.Outcome.{Result, ok, err, Outcome, done, failed, panicked, stuck, Action, ◌>>◌, fail}
use rust_mq.Mqtt3.Bytes.{Text}
use rust_mq.Mqtt3.Errors.{ErrorKind}
use rust_mq.Mqtt3.Errors
use rust_mq.Mqtt3.Qos.{Qos}
use rust_mq.Mqtt3.PacketIdentifier.{PacketIdentifier, next}
use rust_mq.Mqtt3.Packet.{Packet, Subscribe, SubscribeTopic, Unsubscribe}
use rust_mq.Mqtt3.Topic.{TopicPath}
use rust_mq.Mqtt3.Message.{Message}
use rust_mq.Mqttc.Errors.{StoreError, Error, io, storage}
use rust_mq.Mqttc.Store.{Store}
use rust_mq.Mqttc.Network.{Network}
use rust_mq.Mqttc.Options.{ClientOptions}
use rust_mq.Mqttc.Sub.{Subscription}

pub data ClientState : Type 0 where
  handshake connected disconnected : ClientState

unfoldable pub is_connected : ClientState → Bool
is_connected connected = true
is_connected _ = false

pub record Client (N S : Type 0) : Type 0 where
  pub state : ClientState
  pub opts : ClientOptions S
  pub conn : N
  pub session_present : Bool
  pub last_flush : ℕ
  pub last_pid : PacketIdentifier
  pub await_ping : Bool
  pub incomming_pub : List Message
  pub incomming_rec : List Message
  pub incomming_rel : List PacketIdentifier
  pub outgoing_ack : List Message
  pub outgoing_rec : List Message
  pub outgoing_comp : List PacketIdentifier
  pub await_suback : List Subscribe
  pub await_unsuback : List Unsubscribe
  pub subscriptions : List (Text × Subscription)

-- A method of the client.
abbrev pub Method : Type 0 → Type 0 → Type 0 → Type 0
Method N S A = Action Error (Client N S) A

-- A change of fields.
abbrev pub modify : {N S : Type 0} → (Client N S → Client N S) → Method N S (Unit {0})
modify f c = done tt (f c)

-- `VecDeque::push_back`.
abbrev pub push_back : {A : Type 0} → List A → A → List A
push_back q x = q ++ x ∷ []

-- A call on the network whose `io::Result` is passed on by `try!`.
abbrev pub with_conn :
    {N S A : Type 0} → Client N S → Outcome ErrorKind N A → Outcome Error (Client N S) A
with_conn c (done a n) = done a (record c { conn = n })
with_conn c (failed e n) = failed (io e) (record c { conn = n })
with_conn c panicked = panicked
with_conn c stuck = stuck

-- A result that is dropped by `let _ =`: the state after it.
abbrev pub dropped : {E S A : Type 0} → Outcome E S A → Outcome E S (Unit {0})
dropped (done a s) = done tt s
dropped (failed e s) = done tt s
dropped panicked = panicked
dropped stuck = stuck

module _ {N S : Type 0} where
  abbrev pub written :
      Client N S → Outcome Errors.Error N (Unit {0}) → Outcome Error (Client N S) (Unit {0})
  written c (done _ n) = done tt (record c { conn = n })
  written c (failed e n) = panicked
  written c panicked = panicked
  written c stuck = stuck

  abbrev pub unbound : Client N S → Client N S
  unbound c = record c {
    await_unsuback = [];
    await_suback = [];
    await_ping = false;
    state = disconnected;
  }

  abbrev pub client_id_unwrapped :
      Outcome Error (Client N S) (Unit {0}) → Outcome Error (Client N S) (Unit {0})
  client_id_unwrapped (done a c) = elim c.opts.client_id [
    | none ↦ panicked
    | some id ↦ done tt (unbound c)
  ]
  client_id_unwrapped (failed e c) = failed e c
  client_id_unwrapped panicked = panicked
  client_id_unwrapped stuck = stuck

module _ {N S : Type 0} (net : Network N) where
  -- The result of `write_packet` is unwrapped.
  unfoldable pub write_packet : Packet → Method N S (Unit {0})
  write_packet packet c = written c (net.write_packet packet c.conn)

  abbrev pub flushed : Outcome Error (Client N S) (Unit {0}) → Outcome Error (Client N S) (Unit {0})
  flushed (done _ c) = done tt (record c { last_flush = net.now c.conn })
  flushed (failed e c) = failed e c
  flushed panicked = panicked
  flushed stuck = stuck

  unfoldable pub flush : Method N S (Unit {0})
  flush c = flushed (with_conn c (net.flush c.conn))

  unfoldable pub ping : Method N S (Unit {0})
  unfolding write_packet flush
  ping c = (write_packet Packet.pingreq >> flush) (record c { await_ping = true })

  -- The last line logs `client_id.clone().unwrap()`, which is evaluated where that level is logged,
  -- as it is here.
  unfoldable pub unbind : Method N S (Unit {0})
  unbind c = client_id_unwrapped (dropped (with_conn c (net.terminate c.conn)))

module _ {N S : Type 0} where
  -- `_next_pid`, with the client after it.
  unfoldable pub next_pid : Client N S → PacketIdentifier × Client N S
  unfolding next
  next_pid c = (next c.last_pid, record c { last_pid = next c.last_pid })

  unfoldable pub normalized : Client N S → Bool
  unfolding is_connected
  normalized c =
      is_connected c.state
      && (Base.not c.await_ping
          && (length c.outgoing_ack == 0
              && (length c.outgoing_rec == 0
                  && (length c.incomming_pub == 0
                      && (length c.incomming_rec == 0
                          && (length c.incomming_rel == 0
                              && (length c.await_suback == 0 && length c.await_unsuback == 0)))))))

  -- The outcome of a call on the incoming or the outgoing store, under `try!`.
  abbrev pub stored :
      {A : Type 0} → (S → Client N S) → Outcome StoreError S A → Outcome Error (Client N S) A
  stored keep (done a s) = done a (keep s)
  stored keep (failed e s) = failed (storage e) (keep s)
  stored keep panicked = panicked
  stored keep stuck = stuck

  abbrev pub keep_incomming : Client N S → S → Client N S
  keep_incomming c s = record c { opts = record c.opts { incomming_store = some s } }

  abbrev pub keep_outgoing : Client N S → S → Client N S
  keep_outgoing c s = record c { opts = record c.opts { outgoing_store = some s } }

  abbrev pub on_store :
      {A : Type 0}
      → Option S
      → Action StoreError S A
      → (S → Client N S)
      → Error
      → Action Error (Client N S) A
  on_store none call keep absent c = failed absent c
  on_store (some s) call keep absent c = stored keep (call s)

  -- `if let Some(ref mut store) = …_store { try!(call) } else { return Err(absent) }`.
  unfoldable pub on_incomming : {A : Type 0} → Action StoreError S A → Error → Method N S A
  on_incomming call absent c = on_store c.opts.incomming_store call (keep_incomming c) absent c

  unfoldable pub on_outgoing : {A : Type 0} → Action StoreError S A → Error → Method N S A
  on_outgoing call absent c = on_store c.opts.outgoing_store call (keep_outgoing c) absent c
