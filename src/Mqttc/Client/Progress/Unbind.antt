-- ===== src/Mqttc/Client/Progress/Unbind.antt =====
-- `_unbind` of mqttc/src/client.rs on a network from which only so much can be read.
use rust_mq.Base.{ℕ, ◌≡◌, refl, Option-cases, inl, inr}
use rust_mq.Outcome.{Outcome, done, failed, panicked, stuck, and_then}
use rust_mq.Mqttc.Errors.{Error}
use rust_mq.Mqttc.Store.{Store}
use rust_mq.Mqttc.Network.{Network}
use rust_mq.Mqttc.Client.{disconnected, Client, Method, dropped, unbind, client_id_unwrapped}
use rust_mq.Mqttc.Client.Progress.{Goes, Finite, Answering, Under, with_conn-Under}

module _ {N S : Type 0} (net : Network N) (store : Store S) (left : N → ℕ)
    (finite : Finite net left) (answering : Answering store) where
  -- The end of a connection: the client is disconnected, or it panics.
  abbrev pub Cut : ℕ → Client N S → Type 0
  Cut k c = Under left k c × (c.state ≡ disconnected)

  abbrev pub Succeeds : {A : Type 0} → (Client N S → Type 0) → Outcome Error (Client N S) A → Type 0
  Succeeds P (done a c) = P c
  Succeeds P (failed e c) = ⊥
  Succeeds P panicked = Unit
  Succeeds P stuck = ⊥

  unwrapped-Cut :
      (k : ℕ) (o : Outcome Error (Client N S) (Unit {0}))
      → Succeeds (Under left k) o
      → Succeeds (Cut k) (client_id_unwrapped o)
  unwrapped-Cut k (done a c) v = elim (Option-cases c.opts.client_id) [
    | inl e ↦ rw e tt
    | inr (id, e) ↦ rw e (v, refl)
  ]
  unwrapped-Cut k (failed e c) v = absurd v
  unwrapped-Cut k panicked v = tt
  unwrapped-Cut k stuck v = v

  dropped-Succeeds :
      (k : ℕ) (o : Outcome Error (Client N S) (Unit {0}))
      → Goes (Under left k) o
      → Succeeds (Under left k) (dropped o)
  dropped-Succeeds k (done a c) v = v
  dropped-Succeeds k (failed e c) v = v
  dropped-Succeeds k panicked v = v
  dropped-Succeeds k stuck v = v

  pub unbind-Cut : (k : ℕ) (c : Client N S) → Under left k c → Succeeds (Cut k) (unbind net c)
  unfolding unbind
  unbind-Cut k c v = unwrapped-Cut k _ (
      dropped-Succeeds k _ (with_conn-Under left k c (net.terminate c.conn) (finite.ends c.conn) v))

  -- What follows the end of a connection.
  pub after_Cut :
      {B : Type 0} (P : Outcome Error (Client N S) B → Type 0) (k : ℕ)
      (o : Outcome Error (Client N S) (Unit {0})) (f : Method N S B)
      → Succeeds (Cut k) o
      → P panicked
      → ((c : Client N S) → Cut k c → P (f c))
      → P (and_then o (λ _. f))
  after_Cut P k (done a c) f v p h = h c v
  after_Cut P k (failed e c) f v p h = absurd v
  after_Cut P k panicked f v p h = p
  after_Cut P k stuck f v p h = absurd v
