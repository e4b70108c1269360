-- ===== src/Command/Subscribe/Run.antt =====
-- `run` of src/client/command/subscribe.rs. What is printed is left out, and so is the start of the
-- logger.
use rust_mq.Base.{ℕ, zero, suc, Bool, [], Option, none, some, if◌then◌else◌}
use rust_mq.Outcome.{Outcome, done, failed, panicked, stuck, and_then, ◌>>◌, pure}
use rust_mq.Mqtt3.Bytes.{Text}
use rust_mq.Mqtt3
use rust_mq.Mqtt3.Qos.{Qos, exactly_once}
use rust_mq.Mqtt3.PacketIdentifier.{PacketIdentifier}
use rust_mq.Mqtt3.Message.{Message}
use rust_mq.Mqttc.Errors.{
  Error, not_found, unavailable, storage, unhandled_puback, unhandled_pubrec, unhandled_pubrel,
  unhandled_pubcomp, disconnected, connection_abort,
}
use rust_mq.Mqttc.Errors
use rust_mq.Mqttc.Store.{LocalStorage, local_storage}
use rust_mq.Mqttc.Network.{Network}
use rust_mq.Mqttc.Options.{
  ClientOptions, new, seconds, reconnect_after, set_protocol, set_keep_alive, set_clean_session,
  set_last_will_opt, set_incomming_store, set_reconnect, set_username, set_password, set_client_id,
}
use rust_mq.Mqttc.Sub.{topics}
use rust_mq.Mqttc.Client.{Client, unbind}
use rust_mq.Mqttc.Client.Outgoing.{subscribe, complete}
use rust_mq.Mqttc.Client.Life.{await, connect}
use rust_mq.Command.Ending.{Script, exit, expected, ignored, socket_address}
use rust_mq.Command.Publish.Run.{set_if}
use rust_mq.Command.Subscribe.{SubscribeCommand}

abbrev reconnecting : Bool → ClientOptions LocalStorage → ClientOptions LocalStorage
unfolding set_reconnect
reconnecting b o = if b then set_reconnect (reconnect_after (seconds 1)) o else o

module _ {C : Type 0} where
  unfoldable pub options_of : SubscribeCommand C → ClientOptions LocalStorage
  unfolding new set_protocol set_keep_alive set_clean_session set_last_will_opt set_incomming_store
      set_reconnect set_username set_password set_client_id
  options_of cmd = set_if set_client_id cmd.client_id (
      set_if set_password cmd.password (
        set_if set_username cmd.username (
          reconnecting cmd.reconnect (
            set_incomming_store [] (
              set_last_will_opt cmd.last_will (
                set_clean_session cmd.clean_session
                  (set_keep_alive cmd.keep_alive (set_protocol cmd.protocol new))))))))

module _ {N : Type 0} (net : Network N) where
  abbrev Shell : Type 0 → Type 0
  Shell A = Script (Client N LocalStorage) A

  -- `let _ = client.complete(pid)`.
  unfoldable pub settle : PacketIdentifier → Shell (Unit {0})
  unfolding complete
  settle pid c = ignored (complete net local_storage pid c)

  abbrev settle_opt : Option PacketIdentifier → Shell (Unit {0})
  unfolding settle
  settle_opt none c = panicked
  settle_opt (some pid) c = settle pid c

  abbrev settle_at : Qos → Option PacketIdentifier → Shell (Unit {0})
  unfolding settle
  settle_at exactly_once pid = settle_opt pid
  settle_at _ pid = pure tt

  -- The arm `Ok(some_message)`.
  unfoldable pub on_message : Option Message → Shell (Unit {0})
  unfolding settle
  on_message none = pure tt
  on_message (some message) = settle_at message.qos message.pid

  -- `client.terminate()`, which returns nothing.
  unfoldable pub unbind_quietly : Shell (Unit {0})
  unfolding unbind
  unbind_quietly c = ignored (unbind net c)

  -- The arm `Err(e)`: what does not leave the loop by `exit` goes on.
  unfoldable pub on_error : Error → Shell (Unit {0})
  unfolding settle unbind_quietly
  on_error (unhandled_puback _) = pure tt
  on_error (unhandled_pubrec _) = pure tt
  on_error (unhandled_pubrel _) = pure tt
  on_error (unhandled_pubcomp _) = pure tt
  on_error (Errors.mqtt Mqtt3.Errors.topic_name_must_not_contain_non_utf8) = pure tt
  on_error (Errors.mqtt Mqtt3.Errors.topic_name_must_not_contain_wildcard) = pure tt
  on_error (Errors.mqtt e) = exit 64
  on_error (storage (not_found pid)) = settle pid
  on_error (storage (unavailable pid)) = pure tt
  on_error disconnected = exit 64
  on_error connection_abort = exit 64
  on_error e = unbind_quietly >> exit 64

  abbrev on_outcome :
      Outcome Error (Client N LocalStorage) (Option Message)
      → Outcome ℕ (Client N LocalStorage) (Unit {0})
  unfolding on_message on_error
  on_outcome (done message c) = on_message message c
  on_outcome (failed e c) = on_error e c
  on_outcome panicked = panicked
  on_outcome stuck = stuck

  -- The `loop`, in at most `rounds` rounds.
  unfoldable pub listen : ℕ → ℕ → Shell ⊥
  unfolding await on_message on_error
  listen fuel zero c = stuck
  listen fuel (suc rounds) c =
      and_then (on_outcome (await net local_storage fuel c)) (λ _. listen fuel rounds)

module _ {N C : Type 0} (net : Network N) (cmd : SubscribeCommand C) where
  -- The whole command, as `run` of the other one.
  unfoldable pub run : ℕ → ℕ → Text → (Text → Option C → N) → Outcome ℕ (Client N LocalStorage) ⊥
  unfolding options_of connect subscribe listen socket_address
  run fuel rounds generated dial =
      and_then
        (expected (
          connect net local_storage fuel generated (options_of cmd)
            (dial (socket_address cmd.address cmd.port) cmd.ssl_context)))
        (λ _ c.
          and_then (expected (subscribe net (topics cmd.topics) c)) (λ _. listen net fuel rounds))
