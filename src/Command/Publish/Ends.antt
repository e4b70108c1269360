-- ===== src/Command/Publish/Ends.antt =====
-- The command of src/client/command/publish.rs ends, on a network from which only so much can be read.
use rust_mq.Base.{
  ℕ, zero, suc, ◌+◌, ◌*◌, ◌≤◌, ◌<◌, ◌≡◌, refl, ◌∙◌, Bool, true, false, not, Option, none, some,
  Bool-cases, inl, inr, arith,
}
use rust_mq.Outcome.{Outcome, done, failed, panicked, stuck, and_then}
use rust_mq.Mqtt3.Bytes.{Bytes, Text}
use rust_mq.Mqtt3.Qos.{at_most_once}
use rust_mq.Mqtt3.Qos
use rust_mq.Mqtt3.Topic.{text}
use rust_mq.Mqtt3.Message.{Message}
use rust_mq.Mqttc.Errors.{Error}
use rust_mq.Mqttc.PubOpt
use rust_mq.Mqttc.Store.{LocalStorage, local_storage}
use rust_mq.Mqttc.Network.{Network}
use rust_mq.Mqttc.Options.{
  ClientOptions, forever_disconnect, new, set_protocol, set_keep_alive, set_clean_session,
  set_outgoing_store, set_username, set_password, set_client_id,
}
use rust_mq.Mqttc.Client.{Client}
use rust_mq.Mqttc.Client.Life.{await}
use rust_mq.Mqttc.Client.Progress.{Goes, Finite, Under, local_storage-Answering}
use rust_mq.Mqttc.Client.Progress.Accept.{phase_small}
use rust_mq.Mqttc.Client.Progress.Await.{Ended, await-Ended}
use rust_mq.Mqttc.Client.Progress.Opening.{Returns, Goes→Returns, connect-Returns, publish-Under}
use rust_mq.Command.Ending.{expected, socket_address}
use rust_mq.Command.Publish.{PublishCommand}
use rust_mq.Command.Publish.Run.{
  Files, set_if, options_of, read_file, payload_of, send, again_if_some, wait, finish, run,
}

set_if-reconnect :
    {S : Type 0} (set : Text → ClientOptions S → ClientOptions S) (v : Option Text)
    (o : ClientOptions S)
    → ((t : Text) → (set t o).reconnect ≡ o.reconnect)
    → (set_if set v o).reconnect ≡ o.reconnect
set_if-reconnect set none o h = refl
set_if-reconnect set (some t) o h = h t

options_of-reconnect :
    {C : Type 0} (cmd : PublishCommand C) → (options_of cmd).reconnect ≡ forever_disconnect
unfolding options_of new set_protocol set_keep_alive set_clean_session set_outgoing_store
    set_username set_password set_client_id
options_of-reconnect cmd =
    set_if-reconnect set_client_id cmd.client_id _ (λ t. refl)
    ∙ set_if-reconnect set_password cmd.password _ (λ t. refl)
    ∙ set_if-reconnect set_username cmd.username _ (λ t. refl)

-- A part of the command that comes to its end, or panics; it does not exit.
abbrev Runs : {S A : Type 0} → (S → Type 0) → Outcome ℕ S A → Type 0
Runs P (done a s) = P s
Runs P panicked = Unit
Runs P _ = ⊥

-- The whole command exits with the status 0, or panics.
abbrev pub Exits : {S : Type 0} → Outcome ℕ S ⊥ → Type 0
Exits (failed code s) = code ≡ 0
Exits panicked = Unit
Exits _ = ⊥

module _ {S : Type 0} where
  expected-Runs :
      {A : Type 0} (P : S → Type 0) (o : Outcome Error S A) → Returns P o → Runs P (expected o)
  expected-Runs P (done a s) h = h
  expected-Runs P (failed e s) h = tt
  expected-Runs P panicked h = tt
  expected-Runs P stuck h = h

  Runs-bind :
      {A B : Type 0} (P Q : S → Type 0) (o : Outcome ℕ S A) (f : A → S → Outcome ℕ S B)
      → Runs P o
      → ((a : A) (s : S) → P s → Runs Q (f a s))
      → Runs Q (and_then o f)
  Runs-bind P Q (done a s) f h k = k a s h
  Runs-bind P Q (failed e s) f h k = absurd h
  Runs-bind P Q panicked f h k = tt
  Runs-bind P Q stuck f h k = absurd h

  Exits-after :
      {A : Type 0} (P : S → Type 0) (o : Outcome ℕ S A) (f : A → S → Outcome ℕ S ⊥)
      → Runs P o
      → ((a : A) (s : S) → P s → Exits (f a s))
      → Exits (and_then o f)
  Exits-after P (done a s) f h k = k a s h
  Exits-after P (failed e s) f h k = absurd h
  Exits-after P panicked f h k = tt
  Exits-after P stuck f h k = absurd h

module _ {N : Type 0} (net : Network N) (left : N → ℕ) (finite : Finite net left) where
  abbrev State : Type 0
  State = Client N LocalStorage

  next-Runs :
      (c : State) (next : State → Outcome ℕ State (Unit {0}))
      (o : Outcome Error State (Option Message))
      → Ended left (left c.conn) o
      → ((c' : State)
          → left c'.conn < left c.conn
          → c'.opts.reconnect ≡ forever_disconnect
          → Runs (λ _. Unit {0}) (next c'))
      → Runs (λ _. Unit {0}) (and_then (expected o) (again_if_some next))
  next-Runs c next (done none c') h k = tt
  next-Runs c next (done (some m) c') (l, f) k = k c' l f
  next-Runs c next (failed e c') h k = tt
  next-Runs c next panicked h k = tt
  next-Runs c next stuck h k = absurd h

  wait-Runs :
      (fuel rounds most : ℕ) (c : State)
      → Under left most c
      → 3 * most + 2 < fuel
      → left c.conn < rounds
      → Runs (λ _. Unit {0}) (wait net fuel rounds c)
  unfolding wait
  wait-Runs fuel zero most c v enough more = absurd (omega (arith, more))
  wait-Runs fuel (suc rounds) most c (l, f) enough more =
      next-Runs c (wait net fuel rounds) (await net local_storage fuel c)
        (await-Ended net local_storage left finite local_storage-Answering fuel c f
          (omega (arith, l, enough, phase_small c.state c.await_ping)))
        λ c' less f'.
          wait-Runs fuel rounds most c' (omega (arith, l, less), f') enough
            (omega (arith, more, less))

  module _ {C : Type 0} (files : Files) (cmd : PublishCommand C) where
    read_file-Runs :
        (P : State → Type 0) (b : Bool) (o : Option Bytes) (c : State)
        → P c
        → Runs P (read_file b o c)
    read_file-Runs P true (some payload) c v = v
    read_file-Runs P true none c v = tt
    read_file-Runs P false o c v = tt

    payload_of-Runs :
        (P : State → Type 0) (message file : Option Text) (c : State)
        → P c
        → Runs P (payload_of net files cmd message file c)
    payload_of-Runs P (some message) file c v = v
    payload_of-Runs P none (some file) c v =
        read_file-Runs P (files.exists file) (files.read file) c v
    payload_of-Runs P none none c v = v

    send-Runs :
        (most : ℕ) (c : State) → Under left most c → Runs (Under left most) (send net files cmd c)
    unfolding send
    send-Runs most c v =
        Runs-bind (Under left most) (Under left most)
          (payload_of net files cmd cmd.message cmd.file c) _
          (payload_of-Runs (Under left most) cmd.message cmd.file c v)
          λ payload c₁ v₁. expected-Runs (Under left most) _ (
            Goes→Returns (Under left most) _ (
              publish-Under net local_storage left finite local_storage-Answering most
                (text cmd.topic) payload (PubOpt.new cmd.qos cmd.retain) c₁ v₁))

    finish-Exits :
        (fuel rounds most : ℕ) (c : State)
        → Under left most c
        → 3 * most + 2 < fuel
        → most < rounds
        → Exits (finish net files cmd fuel rounds c)
    unfolding finish
    finish-Exits fuel rounds most c v enough more =
        elim (Bool-cases (not (Qos.eq cmd.qos at_most_once))) [
          | inl asks ↦ rw asks (
              Exits-after (λ _. Unit {0}) (wait net fuel rounds c) _
                (wait-Runs fuel rounds most c v enough (omega (arith, v.0, more))) λ _ _ _. refl)
          | inr quiet ↦ rw quiet refl
        ]

    -- The publish command ends, whatever the server sends: on a network from which at most `most`
    -- units can be read over the new connection, each packet or timeout taking one away at least and
    -- nothing that is written bringing more, it exits with the status 0 or panics, as it does on an
    -- error. More rounds of `await` than three for each unit and two, and more rounds of its own loop
    -- than units, are enough.
    pub run-Exits :
        (fuel rounds most : ℕ) (generated : Text) (dial : Text → Option C → N)
        → ((t : Option ℕ)
            → Goes
                (λ n'. left n' ≤ most)
                (net.connect t (dial (socket_address cmd.address cmd.port) cmd.ssl_context)))
        → 3 * most + 2 < fuel
        → most < rounds
        → Exits (run net files cmd fuel rounds generated dial)
    unfolding run
    run-Exits fuel rounds most generated dial opens enough more =
        Exits-after (Under left most) _ _
          (expected-Runs (Under left most) _ (
            connect-Returns net local_storage left finite local_storage-Answering most fuel
              generated (options_of cmd)
              (dial (socket_address cmd.address cmd.port) cmd.ssl_context)
              (options_of-reconnect cmd) opens enough))
          λ _ c v.
            Exits-after (Under left most) (send net files cmd c) _ (send-Runs most c v)
              λ _ c₁ v₁. finish-Exits fuel rounds most c₁ v₁ enough more
