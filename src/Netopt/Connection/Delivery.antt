-- ===== src/Netopt/Connection/Delivery.antt =====
-- All that is written to a `Connection` of netopt/src/conn.rs over a mock stream, from the first write to
-- the flush.
use rust_mq.Base.{ℕ, ◌≡◌, refl, sym, ap, ◌∙◌, List, [], ◌∷◌, ◌++◌, append-nil, append_assoc}
use rust_mq.Outcome.{done, Action, and_then}
use rust_mq.Mqtt3.Bytes.{Bytes}
use rust_mq.Mqtt3.Errors.{ErrorKind}
use rust_mq.Netopt.Mock.{take_vec}
use rust_mq.Netopt.Mock.Laws.{IsAtEnd, to_come, concat}
use rust_mq.Netopt.Stream.{Tcp, Ssl, World, mock}
use rust_mq.Netopt.Stream
use rust_mq.Netopt.Options.{NetworkOptions}
use rust_mq.Netopt.Options
use rust_mq.Netopt.Connection.{Buffered, Connection, Wired, new, write, flush}
use rust_mq.Netopt.Connection.Sending.{WritesTo, Sends, sent, write-Sends, flush-Sends}
use rust_mq.Netopt.Connection.Receiving.{comes}

module _ {W T L X A : Type 0} (tcps : Tcp W T A) (ssls : Ssl W T L X) where
  pub write_each : List Bytes → Action ErrorKind (Wired W T L) (Unit {0})
  write_each [] s = done tt s
  write_each (msg ∷ msgs) s = and_then (write tcps ssls msg s) (λ _. write_each msgs)

  write_each-Sends :
      (r : ℕ) (msgs : List Bytes) (s : Wired W T L)
      → WritesTo tcps ssls r s
      → Sends tcps ssls r tt (sent tcps ssls r s ++ concat msgs) s (write_each msgs s)
  unfolding write_each
  write_each-Sends r [] s h = (s, refl, h, sym (append-nil (sent tcps ssls r s)), refl, refl)
  write_each-Sends r (msg ∷ msgs) s h =
      let (s₁, e₁, h₁, sent₁, reader₁, kept₁) = write-Sends tcps ssls r msg s h in
      let (s₂, e₂, h₂, sent₂, reader₂, kept₂) = write_each-Sends r msgs s₁ h₁ in
      (
        s₂,
        ap (λ o. and_then o (λ _. write_each msgs)) e₁ ∙ e₂,
        h₂,
        sent₂
            ∙ ap (λ (bytes : Bytes). bytes ++ concat msgs) sent₁
            ∙ append_assoc (sent tcps ssls r s) msg (concat msgs),
        reader₂ ∙ reader₁,
        kept₂ ∙ kept₁,
      )

  -- Network options to which a mock stream is attached connect to it, whatever the address is, and a
  -- connection can be made over it. What is then written in any number of writes, of any lengths, is in
  -- the mock stream after a flush, whole and in order, behind what was there; and what comes from the
  -- mock stream is what came from it before.
  pub connect-flush :
      (o : NetworkOptions T L X) (addr : A) (r : ℕ) (w : World W) (msgs : List Bytes)
      → IsAtEnd (w.mocks r).writer
      → (c : Connection T L) × (s : Wired W T L) × (and_then
            (Options.connect tcps ssls addr (Options.attach (mock r) o) w)
            (new tcps ssls)
          ≡ done c w)
        × (and_then (write_each msgs (c, w)) (λ _. flush tcps ssls) ≡ done tt s)
        × ((take_vec (s.1.mocks r)).0 ≡ (w.mocks r).writer.contents ++ concat msgs)
        × (comes tcps ssls r s ≡ to_come (w.mocks r).reader)
  unfolding Options.connect Options.attach new Stream.try_clone take_vec
  connect-flush o addr r w msgs h =
      let c : Connection T L = record {
        stream = mock r;
        reader = record { inner = mock r; buf = [] };
        writer = record { inner = mock r; buf = [] };
      } in
      let (s₁, e₁, h₁, sent₁, reader₁, kept₁) =
        write_each-Sends r msgs (c, w) (record { inner = refl; at_end = h }) in
      let (s₂, e₂, h₂, sent₂, empty, reader₂, kept₂) = flush-Sends tcps ssls r s₁ h₁ in
      (
        c,
        s₂,
        refl,
        ap (λ o. and_then o (λ _. flush tcps ssls)) e₁ ∙ e₂,
        sent₂
            ∙ sent₁
            ∙ ap (λ (xs : Bytes). xs ++ concat msgs) (append-nil (w.mocks r).writer.contents),
        ap (λ (b : Buffered T L). b.buf ++ to_come (s₂.1.mocks r).reader) (reader₂ ∙ reader₁)
            ∙ ap to_come (kept₂ ∙ kept₁),
      )
