-- ===== src/Mqttc/Client/Flow/Complete.antt =====
-- The order in which `complete` of mqttc/src/client.rs takes the identifiers of released messages.
use rust_mq.Base.{◌≡◌, ◌≢◌, refl, sym, List, [], ◌∷◌, ◌++◌, some}
use rust_mq.Outcome.{done, failed}
use rust_mq.Mqtt3.PacketIdentifier.{PacketIdentifier}
use rust_mq.Mqtt3.Packet.{Packet}
use rust_mq.Mqtt3.Message.{Message}
use rust_mq.Mqttc.Errors.{protocol_violation}
use rust_mq.Mqttc.Store.{Store}
use rust_mq.Mqttc.Network.{Network}
use rust_mq.Mqttc.Client.{Client, connected, on_incomming}
use rust_mq.Mqttc.Client.Outgoing.{complete, pop_back}
use rust_mq.Mqttc.Client.Incoming.{on_pubrel, parse_in, parse_packet}
use rust_mq.Mqttc.Client.Flow.{self, other}

-- The last element of a list comes off its end.
pop_back-append : {A : Type 0} → (xs : List A) (x : A) → pop_back (xs ++ x ∷ []) ≡ some (x, xs)
unfolding pop_back
pop_back-append [] x = refl
pop_back-append (y ∷ ys) x = rw (pop_back-append ys x) refl

module _ {N S : Type 0} (net : Network N) (store : Store S) where
  release_next :
      (c : Client N S) (m m' : Message) (rest : List Message) (pid : PacketIdentifier) (s s' : S)
      → c.state ≡ connected
      → c.incomming_rec ≡ m ∷ rest
      → m.pid ≡ some pid
      → c.opts.incomming_store ≡ some s
      → store.get pid s ≡ done m' s'
      → parse_packet net store (Packet.pubrel pid) c
        ≡ done (some m') (record c {
          opts = record c.opts { incomming_store = some s' };
          incomming_rec = rest;
          incomming_rel = c.incomming_rel ++ pid ∷ [];
        })
  unfolding parse_packet parse_in on_pubrel on_incomming
  release_next c m m' rest pid s s' st q id has get = rw (st, q, id, self pid, has, get) refl

  complete_other :
      (c : Client N S) (pids : List PacketIdentifier) (last pid : PacketIdentifier)
      → c.incomming_rel ≡ pids ++ last ∷ []
      → last ≢ pid
      → complete net store pid c ≡ failed protocol_violation (record c { incomming_rel = pids })
  unfolding complete
  complete_other c pids last pid q ne = rw (q, pop_back-append pids last, other last pid ne) refl

  -- Two messages of QoS 2 are released by their PUBREL packets, in the order of the queue, and the
  -- user completes them in that order: the user is given both messages, but both calls of `complete`
  -- are protocol violations, and both identifiers are gone from the queue of released messages.
  pub complete-in_order :
      (c : Client N S) (m₁ m₂ r₁ r₂ : Message) (rest : List Message) (a b : PacketIdentifier)
      (s s₁ s₂ : S)
      → c.state ≡ connected
      → c.incomming_rec ≡ m₁ ∷ m₂ ∷ rest
      → m₁.pid ≡ some a
      → m₂.pid ≡ some b
      → a ≢ b
      → c.opts.incomming_store ≡ some s
      → store.get a s ≡ done r₁ s₁
      → store.get b s₁ ≡ done r₂ s₂
      → (c₁ c₂ c₃ c₄ : Client N S) × (parse_packet net store (Packet.pubrel a) c
          ≡ done (some r₁) c₁)
        × (parse_packet net store (Packet.pubrel b) c₁ ≡ done (some r₂) c₂)
        × (complete net store a c₂ ≡ failed protocol_violation c₃)
        × (complete net store b c₃ ≡ failed protocol_violation c₄)
        × (c₄.incomming_rel ≡ c.incomming_rel)
  complete-in_order c m₁ m₂ r₁ r₂ rest a b s s₁ s₂ st q p₁ p₂ ne has get₁ get₂ =
      let c₁ = record c {
        opts = record c.opts { incomming_store = some s₁ };
        incomming_rec = m₂ ∷ rest;
        incomming_rel = c.incomming_rel ++ a ∷ [];
      } in
      let c₂ = record c₁ {
        opts = record c.opts { incomming_store = some s₂ };
        incomming_rec = rest;
        incomming_rel = (c.incomming_rel ++ a ∷ []) ++ b ∷ [];
      } in
      (
        c₁,
        c₂,
        record c₂ { incomming_rel = c.incomming_rel ++ a ∷ [] },
        record c₂ { incomming_rel = c.incomming_rel },
        release_next c m₁ r₁ (m₂ ∷ rest) a s s₁ st q p₁ has get₁,
        release_next c₁ m₂ r₂ rest b s₁ s₂ st refl p₂ refl get₂,
        complete_other c₂ (c.incomming_rel ++ a ∷ []) b a refl (λ e. ne (sym e)),
        complete_other (record c₂ { incomming_rel = c.incomming_rel ++ a ∷ [] }) c.incomming_rel a b
            refl ne,
        refl,
      )
