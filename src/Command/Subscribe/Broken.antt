-- ===== src/Command/Subscribe/Broken.antt =====
-- The end of the stream in the loop of src/client/command/subscribe.rs, where the command is to
-- reconnect.
use rust_mq.Base.{ℕ, suc, ◌≡◌, refl, ap, ◌∙◌, true, Option, none}
use rust_mq.Outcome.{done, failed}
use rust_mq.Mqtt3.Message.{Message}
use rust_mq.Mqtt3.Errors
use rust_mq.Mqttc.Store.{LocalStorage, local_storage}
use rust_mq.Mqttc.Network.{Network}
use rust_mq.Mqttc.Options.{reconnect_after}
use rust_mq.Mqttc.Client.{Client, Method, connected, is_connected, normalized}
use rust_mq.Mqttc.Client.Life.{
  none_or_disconnected, try_reconnect, reconnect_with, on_read_error, in_time, accept_in, accept,
  await_round, await,
}
use rust_mq.Command.Subscribe.Run.{on_message, listen}

module _ {N : Type 0} (net : Network N) where
  -- A client that is connected does nothing to reconnect but sleep.
  asleep :
      (wait : Method N LocalStorage (Option Message)) (c : Client N LocalStorage) (dur : ℕ)
      → c.state ≡ connected
      → c.opts.reconnect ≡ reconnect_after dur
      → none_or_disconnected net local_storage (reconnect_with net local_storage wait) c
        ≡ done none (record c { conn = net.sleep dur c.conn })
  unfolding none_or_disconnected try_reconnect reconnect_with is_connected
  asleep wait c dur st policy = rw (policy, st) refl

  accept-eof :
      (wait : Method N LocalStorage (Option Message)) (c : Client N LocalStorage) (dur : ℕ)
      (n₁ n₂ : N)
      → c.state ≡ connected
      → c.opts.reconnect ≡ reconnect_after dur
      → in_time net local_storage c.opts.keep_alive c ≡ done tt (record c { conn = n₁ })
      → net.read_packet n₁ ≡ failed Errors.Error.unexpected_eof n₂
      → accept net local_storage (reconnect_with net local_storage wait) c
        ≡ done none (record c { conn = net.sleep dur n₂ })
  unfolding accept accept_in on_read_error
  accept-eof wait c dur n₁ n₂ st policy early ended =
      ap (λ state. accept_in net local_storage state (reconnect_with net local_storage wait) c) st
      ∙ rw (early, ended) (asleep wait (record c { conn = n₂ }) dur st policy)

  -- A connected client that waits for nothing and is to reconnect after a time, where a read in the
  -- keep-alive time finds the end of the stream: it sleeps for that time, stays connected on the same
  -- stream, and makes no new connection; `await` returns no message and no error, and the loop of the
  -- subscribe command goes on as if nothing had happened.
  pub listen-eof :
      (fuel rounds : ℕ) (c : Client N LocalStorage) (dur : ℕ) (n₁ n₂ : N)
      → c.state ≡ connected
      → normalized c ≡ true
      → c.opts.reconnect ≡ reconnect_after dur
      → in_time net local_storage c.opts.keep_alive c ≡ done tt (record c { conn = n₁ })
      → net.read_packet n₁ ≡ failed Errors.Error.unexpected_eof n₂
      → (c' : Client N LocalStorage) × (await net local_storage (suc fuel) c ≡ done none c')
        × (listen net (suc fuel) (suc rounds) c ≡ listen net (suc fuel) rounds c')
        × (c'.state ≡ connected)
        × (c'.conn ≡ net.sleep dur n₂)
  unfolding await await_round normalized listen on_message
  listen-eof fuel rounds c dur n₁ n₂ st calm policy early ended =
      let c' = record c { conn = net.sleep dur n₂ } in
      let awaited : await net local_storage (suc fuel) c ≡ done none c' =
        rw (accept-eof (await net local_storage fuel) c dur n₁ n₂ st policy early ended, calm)
          refl in
      (c', awaited, rw awaited refl, st, refl)
