-- ===== src/Mqttc/Client/Life/Waiting.antt =====
-- When `await` of mqttc/src/client.rs returns without a message.
use rust_mq.Base.{
  ℕ, zero, suc, ◌≡◌, refl, Bool, true, false, not, Option, none, some, Bool-cases, inl, inr,
}
use rust_mq.Outcome.{Outcome, done, failed, panicked, stuck, and_then}
use rust_mq.Mqtt3.Message.{Message}
use rust_mq.Mqttc.Errors.{Error}
use rust_mq.Mqttc.Errors
use rust_mq.Mqttc.Store.{Store}
use rust_mq.Mqttc.Network.{Network}
use rust_mq.Mqttc.Client.{Client, Method, dropped, ping, unbind, is_connected, normalized}
use rust_mq.Mqttc.Client.Life.{
  accept, return_none, round_end, on_timeout, await_round, await, reconnect_with,
}

module _ {N S : Type 0} where
  -- A client that is returned without a message is normalized.
  abbrev pub Settled : Outcome Error (Client N S) (Option Message) → Type 0
  Settled (done none c) = normalized c ≡ true
  Settled _ = Unit

module _ {N S : Type 0} (net : Network N) (store : Store S) where
  module _ (next : Method N S (Option Message)) (nexts : (c : Client N S) → Settled (next c)) where
    return_none-Settled :
        (b : Bool) (c : Client N S) → normalized c ≡ b → Settled (return_none net store b next c)
    return_none-Settled true c e = e
    return_none-Settled false c e = nexts c

    round_end-Settled : (c : Client N S) → Settled (round_end net store next c)
    round_end-Settled c = return_none-Settled (normalized c) c refl

    ends_Settled :
        (o : Outcome Error (Client N S) (Unit {0}))
        → Settled (and_then o (λ _. round_end net store next))
    ends_Settled (done a c) = round_end-Settled c
    ends_Settled (failed e c) = tt
    ends_Settled panicked = tt
    ends_Settled stuck = tt

    on_timeout-Settled : (c : Client N S) → Settled (on_timeout net store next c)
    on_timeout-Settled c = elim (Bool-cases (is_connected c.state)) [
      | inr e ↦ rw e tt
      | inl e ↦ rw e (elim (Bool-cases (not c.await_ping)) [
        | inl p ↦ rw p (ends_Settled (dropped (ping net c)))
        | inr p ↦ rw p (ends_Settled (unbind net c))
      ])
    ]

    await_round-Settled :
        (o : Outcome Error (Client N S) (Option Message)) → Settled (await_round net store o next)
    unfolding await_round
    await_round-Settled (done (some m) c) = tt
    await_round-Settled (done none c) = round_end-Settled c
    await_round-Settled (failed Errors.timeout c) = on_timeout-Settled c
    await_round-Settled (failed e c) = tt
    await_round-Settled panicked = tt
    await_round-Settled stuck = tt

  pub await-Settled : (fuel : ℕ) (c : Client N S) → Settled (await net store fuel c)
  unfolding await
  await-Settled zero c = tt
  await-Settled (suc fuel) c =
      await_round-Settled (await net store fuel) (await-Settled fuel)
        (accept net store (reconnect_with net store (await net store fuel)) c)
