-- ===== src/Command/Publish/Acknowledged.antt =====
-- How `run` of src/client/command/publish.rs ends.
use rust_mq.Base.{
  ℕ, zero, suc, ◌≡◌, ◌⊎◌, inl, inr, refl, Bool, true, false, not, [], Option, none, some, arith,
}
use rust_mq.Outcome.{Outcome, done, failed, panicked, stuck, and_then}
use rust_mq.Mqtt3.Bytes.{Bytes, Text}
use rust_mq.Mqtt3.Qos.{Qos, at_most_once, at_least_once, exactly_once}
use rust_mq.Mqtt3.Qos
use rust_mq.Mqtt3.Message.{Message}
use rust_mq.Mqttc.Errors.{Error}
use rust_mq.Mqttc.Store.{LocalStorage, local_storage}
use rust_mq.Mqttc.Network.{Network}
use rust_mq.Mqttc.Client.{Client, normalized}
use rust_mq.Mqttc.Client.Life.{await}
use rust_mq.Mqttc.Client.Life.Waiting.{Settled, await-Settled}
use rust_mq.Command.Ending.{expected, exit}
use rust_mq.Command.Publish.{PublishCommand}
use rust_mq.Command.Publish.Run.{
  Files, read_file, payload_of, send, again_if_some, wait, finish, run,
}

abbrev State : Type 0 → Type 0
State N = Client N LocalStorage

module _ {N : Type 0} where
  -- No exit, and normalized where it goes on.
  abbrev Waited : Outcome ℕ (State N) (Unit {0}) → Type 0
  Waited (done _ c) = normalized c ≡ true
  Waited (failed code c) = ⊥
  Waited _ = Unit

  -- No exit.
  abbrev Stays : {A : Type 0} → Outcome ℕ (State N) A → Type 0
  Stays (failed code c) = ⊥
  Stays _ = Unit

  -- An exit with the status 0, from a normalized client where the QoS asks for an answer.
  abbrev Exits : Qos → Outcome ℕ (State N) ⊥ → Type 0
  Exits q (failed code c) = (code ≡ 0) × ((q ≡ at_most_once) ⊎ (normalized c ≡ true))
  Exits q _ = Unit

  expected-Stays : {A : Type 0} (o : Outcome Error (State N) A) → Stays (expected o)
  expected-Stays (done a c) = tt
  expected-Stays (failed e c) = tt
  expected-Stays panicked = tt
  expected-Stays stuck = tt

  Exits-after :
      {A : Type 0} (q : Qos) (o : Outcome ℕ (State N) A) (f : A → (State N) → Outcome ℕ (State N) ⊥)
      → Stays o
      → ((a : A) (c : State N) → Exits q (f a c))
      → Exits q (and_then o f)
  Exits-after q (done a c) f h k = k a c
  Exits-after q (failed e c) f h k = absurd h
  Exits-after q panicked f h k = tt
  Exits-after q stuck f h k = tt

  next_Waited :
      (next : (State N) → Outcome ℕ (State N) (Unit {0}))
      (o : Outcome Error (State N) (Option Message))
      → Settled o
      → ((c : State N) → Waited (next c))
      → Waited (and_then (expected o) (again_if_some next))
  next_Waited next (done none c) s k = s
  next_Waited next (done (some m) c) s k = k c
  next_Waited next (failed e c) s k = tt
  next_Waited next panicked s k = tt
  next_Waited next stuck s k = tt

  exit_after :
      (q : Qos) (o : Outcome ℕ (State N) (Unit {0})) → Waited o → Exits q (and_then o (λ _. exit 0))
  exit_after q (done a c) h = (refl, inr h)
  exit_after q (failed e c) h = absurd h
  exit_after q panicked h = tt
  exit_after q stuck h = tt

  Stays-after :
      {A B : Type 0} (o : Outcome ℕ (State N) A) (f : A → (State N) → Outcome ℕ (State N) B)
      → Stays o
      → ((a : A) (c : State N) → Stays (f a c))
      → Stays (and_then o f)
  Stays-after (done a c) f h k = k a c
  Stays-after (failed e c) f h k = absurd h
  Stays-after panicked f h k = tt
  Stays-after stuck f h k = tt

  read_file-Stays : (b : Bool) (o : Option Bytes) (c : State N) → Stays (read_file b o c)
  read_file-Stays true (some payload) c = tt
  read_file-Stays true none c = tt
  read_file-Stays false o c = tt

  normalized-quiet :
      (c : State N) → normalized c ≡ true → (c.outgoing_ack ≡ []) × (c.outgoing_rec ≡ [])
  unfolding normalized
  normalized-quiet c h = ground arith

module _ {N : Type 0} (net : Network N) where
  wait-Waited : (fuel rounds : ℕ) (c : State N) → Waited (wait net fuel rounds c)
  unfolding wait
  wait-Waited fuel zero c = tt
  wait-Waited fuel (suc rounds) c =
      next_Waited (wait net fuel rounds) (await net local_storage fuel c)
        (await-Settled net local_storage fuel c) (wait-Waited fuel rounds)

asks : (q : Qos) → (q ≡ at_most_once) ⊎ (not (Qos.eq q at_most_once) ≡ true)
unfolding Qos.eq
asks at_most_once = inl refl
asks at_least_once = inr refl
asks exactly_once = inr refl

module _ {N C : Type 0} (net : Network N) (files : Files) (cmd : PublishCommand C) where
  finish-Exits :
      (fuel rounds : ℕ) (c : State N) → Exits cmd.qos (finish net files cmd fuel rounds c)
  unfolding finish Qos.eq
  finish-Exits fuel rounds c = elim (asks cmd.qos) [
    | inl level ↦ rw level (refl, inl refl)
    | inr waits ↦
        rw waits (exit_after cmd.qos (wait net fuel rounds c) (wait-Waited net fuel rounds c))
  ]

  payload_of-Stays :
      (message file : Option Text) (c : State N) → Stays (payload_of net files cmd message file c)
  payload_of-Stays (some message) file c = tt
  payload_of-Stays none (some file) c = read_file-Stays (files.exists file) (files.read file) c
  payload_of-Stays none none c = tt

  send-Stays : (c : State N) → Stays (send net files cmd c)
  unfolding send
  send-Stays c =
      Stays-after (payload_of net files cmd cmd.message cmd.file c) _
        (payload_of-Stays cmd.message cmd.file c) λ payload c₁. expected-Stays _

  run-Exits :
      (fuel rounds : ℕ) (generated : Text) (dial : Text → Option C → N)
      → Exits cmd.qos (run net files cmd fuel rounds generated dial)
  unfolding run
  run-Exits fuel rounds generated dial = Exits-after cmd.qos _ _ (expected-Stays _) λ _ c.
      Exits-after cmd.qos (send net files cmd c) _ (send-Stays c)
        λ _ c₁. finish-Exits fuel rounds c₁

  quiet_or :
      (c : State N)
      → (cmd.qos ≡ at_most_once) ⊎ (normalized c ≡ true)
      → (cmd.qos ≡ at_most_once) ⊎ ((c.outgoing_ack ≡ []) × (c.outgoing_rec ≡ []))
  quiet_or c (inl level) = inl level
  quiet_or c (inr quiet) = inr (normalized-quiet c quiet)

  -- The publish command exits with the status 0 only, whatever its QoS; and, where the QoS is not 0,
  -- only when no message of its client waits for a PUBACK or a PUBREC any more.
  pub run-acknowledged :
      (fuel rounds : ℕ) (generated : Text) (dial : Text → Option C → N) (code : ℕ) (c : State N)
      → run net files cmd fuel rounds generated dial ≡ failed code c
      → (code ≡ 0) × ((cmd.qos ≡ at_most_once) ⊎ ((c.outgoing_ack ≡ []) × (c.outgoing_rec ≡ [])))
  run-acknowledged fuel rounds generated dial code c e =
      let h = rw e at (run-Exits fuel rounds generated dial) in (h.0, quiet_or c h.1)
