-- ===== src/Command/Publish/Run.antt =====
-- `run` of src/client/command/publish.rs. What is printed is left out, and so is the start of the
-- logger.
use rust_mq.Base.{ℕ, zero, suc, Bool, true, not, [], Option, none, some, if◌then◌else◌}
use rust_mq.Outcome.{Outcome, panicked, stuck, and_then, ◌>>=◌, ◌>>◌, pure}
use rust_mq.Mqtt3.Bytes.{Bytes, Text}
use rust_mq.Mqtt3.Qos.{Qos, at_most_once}
use rust_mq.Mqtt3.Qos
use rust_mq.Mqtt3.Message.{Message}
use rust_mq.Mqtt3.Topic.{text}
use rust_mq.Mqttc.PubOpt
use rust_mq.Mqttc.Store.{LocalStorage, local_storage}
use rust_mq.Mqttc.Network.{Network}
use rust_mq.Mqttc.Options.{
  ClientOptions, new, set_protocol, set_keep_alive, set_clean_session, set_outgoing_store,
  set_username, set_password, set_client_id,
}
use rust_mq.Mqttc.Client.{Client}
use rust_mq.Mqttc.Client.Outgoing.{publish}
use rust_mq.Mqttc.Client.Life.{await, connect}
use rust_mq.Command.Ending.{Script, exit, expected, socket_address}
use rust_mq.Command.Publish.{PublishCommand}

-- The files: whether one exists, and its contents, `none` where it cannot be opened or read.
pub record Files : Type 0 where
  pub exists : Text → Bool
  pub read : Text → Option Bytes

-- `if let Some(ref value) = field { opts.set(value.clone()) }`.
abbrev pub set_if :
    {S : Type 0}
    → (Text → ClientOptions S → ClientOptions S)
    → Option Text
    → ClientOptions S
    → ClientOptions S
set_if set none o = o
set_if set (some value) o = set value o

module _ {C : Type 0} where
  unfoldable pub options_of : PublishCommand C → ClientOptions LocalStorage
  unfolding new set_protocol set_keep_alive set_clean_session set_outgoing_store set_username
      set_password set_client_id
  options_of cmd = set_if set_client_id cmd.client_id (
      set_if set_password cmd.password (
        set_if set_username cmd.username (
          set_outgoing_store [] (
            set_clean_session true
              (set_keep_alive cmd.keep_alive (set_protocol cmd.protocol new))))))

module _ {N : Type 0} where
  abbrev pub read_file : Bool → Option Bytes → Script (Client N LocalStorage) Bytes
  read_file true (some payload) = pure payload
  read_file _ _ = λ c. panicked

  abbrev pub again_if_some :
      Script (Client N LocalStorage) (Unit {0})
      → Option Message
      → Script (Client N LocalStorage) (Unit {0})
  again_if_some next none = pure tt
  again_if_some next (some message) = next

module _ {N : Type 0} (net : Network N) where
  -- `while client.await().unwrap().is_some() {}`, in at most `rounds` rounds.
  unfoldable pub wait : ℕ → ℕ → Script (Client N LocalStorage) (Unit {0})
  unfolding await
  wait fuel zero c = stuck
  wait fuel (suc rounds) c =
      and_then (expected (await net local_storage fuel c)) (again_if_some (wait fuel rounds))

module _ {N C : Type 0} (net : Network N) (files : Files) (cmd : PublishCommand C) where
  abbrev pub Shell : Type 0 → Type 0
  Shell A = Script (Client N LocalStorage) A

  -- The payload: the message, or what is in the file, or nothing.
  abbrev pub payload_of : Option Text → Option Text → Shell Bytes
  payload_of (some message) file = pure message
  payload_of none (some file) = read_file (files.exists file) (files.read file)
  payload_of none none = pure []

  unfoldable pub send : Shell (Unit {0})
  unfolding PubOpt.new publish
  send = do
    payload ← payload_of cmd.message cmd.file
    λ c.
        expected
          (publish net local_storage (text cmd.topic) payload (PubOpt.new cmd.qos cmd.retain) c)

  unfoldable pub finish : ℕ → ℕ → Shell ⊥
  unfolding wait Qos.eq
  finish fuel rounds =
      (if not (Qos.eq cmd.qos at_most_once) then wait net fuel rounds else pure tt) >> exit 0

  -- The whole command; `dial` is the network with the address and the context of TLS that the
  -- connection is made with, `generated` the identifier that `generate_client_id` makes.
  unfoldable pub run : ℕ → ℕ → Text → (Text → Option C → N) → Outcome ℕ (Client N LocalStorage) ⊥
  unfolding options_of connect send finish socket_address
  run fuel rounds generated dial =
      and_then
        (expected (
          connect net local_storage fuel generated (options_of cmd)
            (dial (socket_address cmd.address cmd.port) cmd.ssl_context)))
        (λ _. send >> finish fuel rounds)
