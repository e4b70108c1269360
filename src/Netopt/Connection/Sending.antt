-- ===== src/Netopt/Connection/Sending.antt =====
-- One write and one flush of a `Connection` of netopt/src/conn.rs over a mock stream.
use rust_mq.Base.{
  ℕ, suc, ◌+◌, ◌≤◌, ◌==◌, ◌≡◌, refl, sym, ap, ◌∙◌, ltb, leb, true, [], ◌∷◌, ◌++◌, append-nil,
  append_assoc, length, drop, Bool-cases, inl, inr, arith, not-ltb→le,
}
use rust_mq.Outcome.{Outcome, done, and_then}
use rust_mq.Mqtt3.Bytes.{Bytes}
use rust_mq.Mqtt3.Errors.{ErrorKind}
use rust_mq.Netopt.Mock.{MockStream, MockCursor, write_cursor, read_cursor}
use rust_mq.Netopt.Mock
use rust_mq.Netopt.Mock.Laws.{IsAtEnd, write_cursor-end}
use rust_mq.Netopt.Stream.{Tcp, Ssl, World, NetworkStream, mock, set_mock}
use rust_mq.Netopt.Stream
use rust_mq.Netopt.Connection.{
  capacity, Connection, Wired, drain, after_write, drained, flush_buf, make_room, put_in, outside,
  write, flush,
}

pub same_ref : (r : ℕ) → (r == r) ≡ true
same_ref r = ground arith

module _ {W T L X A : Type 0} (tcps : Tcp W T A) (ssls : Ssl W T L X) where
  -- The writer is a clone of the mock stream `r`, and stands at the end of it.
  pub record WritesTo (r : ℕ) (s : Wired W T L) : Type 0 where
    pub inner : s.0.writer.inner ≡ mock r
    pub at_end : IsAtEnd (s.1.mocks r).writer

  -- What was sent to the stream and what is still in the buffer.
  abbrev pub sent : ℕ → Wired W T L → Bytes
  sent r s = (s.1.mocks r).writer.contents ++ s.0.writer.buf

  -- A result with this value, after which the writer has sent this and the reader is as it was.
  abbrev pub Sends :
      {B : Type 0} → ℕ → B → Bytes → Wired W T L → Outcome ErrorKind (Wired W T L) B → Type 0
  Sends r b bytes s o =
      (s' : Wired W T L) × (o ≡ done b s')
      × WritesTo r s'
      × (sent r s' ≡ bytes)
      × (s'.0.reader ≡ s.0.reader)
      × ((s'.1.mocks r).reader ≡ (s.1.mocks r).reader)

  -- A world in which the stream `r` got these bytes, and nothing else of it changed.
  abbrev Got : ℕ → Bytes → World W → World W → Type 0
  Got r bytes w w' =
      IsAtEnd (w'.mocks r).writer
      × ((w'.mocks r).writer.contents ≡ (w.mocks r).writer.contents ++ bytes)
      × ((w'.mocks r).reader ≡ (w.mocks r).reader)

  write-mock :
      (r : ℕ) (msg : Bytes) (w : World W)
      → IsAtEnd (w.mocks r).writer
      → (w' : World W) × (Stream.write tcps ssls (mock r) msg w ≡ done (length msg) w')
        × Got r msg w w'
  unfolding Stream.write Mock.write write_cursor
  write-mock r msg w h =
      let m : MockStream = record (w.mocks r) {
        writer = (write_cursor msg (w.mocks r).writer).1;
      } in
      let (e, at_end) = write_cursor-end msg (w.mocks r).writer h in
      (set_mock w r m, refl, (rw (same_ref r) at_end, rw (same_ref r) e, rw (same_ref r) refl))

  drop_all : (xs : Bytes) → drop (length xs) xs ≡ []
  drop_all [] = refl
  drop_all (x ∷ xs) = drop_all xs

  drain-mock :
      (r : ℕ) (buf : Bytes) (w : World W)
      → IsAtEnd (w.mocks r).writer
      → (w' : World W) × (drain tcps ssls (suc (length buf)) (mock r) (buf, w) ≡ done tt ([], w'))
        × Got r buf w w'
  unfolding drain
  drain-mock r [] w h = (w, refl, (h, sym (append-nil (w.mocks r).writer.contents), refl))
  drain-mock r (b ∷ buf) w h =
      let (w', e, got) = write-mock r (b ∷ buf) w h in
      let next = drain tcps ssls (suc (length buf)) (mock r) in
      (
        w',
        ap (after_write tcps ssls next (b ∷ buf)) e ∙ ap (λ rest. next (rest, w')) (drop_all buf),
        got,
      )

  abbrev emptied : Connection T L → Connection T L
  emptied c = record c { writer = record c.writer { buf = [] } }

  flush_buf-mock :
      (r : ℕ) (c : Connection T L) (w : World W)
      → WritesTo r (c, w)
      → (w' : World W) × (flush_buf tcps ssls (c, w) ≡ done tt (emptied c, w'))
        × Got r c.writer.buf w w'
  unfolding flush_buf
  flush_buf-mock r c w h =
      let (w', e, got) = drain-mock r c.writer.buf w h.at_end in
      (
        w',
        ap
              (λ i.
                drained tcps ssls c
                  (drain tcps ssls (suc (length c.writer.buf)) i (c.writer.buf, w)))
              h.inner
            ∙ ap (drained tcps ssls c) e,
        got,
      )

  -- A message that goes past the buffer finds the buffer empty.
  abbrev HasRoom : Bytes → Wired W T L → Type 0
  HasRoom msg s = capacity ≤ length msg → s.0.writer.buf ≡ []

  empty_of_length : (xs : Bytes) → length xs ≤ 0 → xs ≡ []
  empty_of_length [] h = refl
  empty_of_length (x ∷ xs) h = absurd (omega arith)

  make_room-Sends :
      (r : ℕ) (msg : Bytes) (c : Connection T L) (w : World W)
      → WritesTo r (c, w)
      → (s : Sends r tt (sent r (c, w)) (c, w) (make_room tcps ssls msg (c, w))) × HasRoom msg s.0
  unfolding make_room
  make_room-Sends r msg c w h =
      elim (Bool-cases (ltb capacity (length c.writer.buf + length msg))) [
        | inr fits ↦ rw fits (
          ((c, w), refl, h, refl, refl, refl),
          λ large. empty_of_length c.writer.buf (omega (arith, not-ltb→le _ _ fits)),
        )
        | inl full ↦
            let (w', e, (at_end, got, kept)) = flush_buf-mock r c w h in
            rw full (
              (
                (emptied c, w'),
                e,
                record { inner = h.inner; at_end = at_end },
                append-nil (w'.mocks r).writer.contents ∙ got,
                refl,
                kept,
              ),
              λ large. refl,
            )
      ]

  put_in-Sends :
      (r : ℕ) (msg : Bytes) (c : Connection T L) (w : World W)
      → WritesTo r (c, w)
      → HasRoom msg (c, w)
      → Sends r (length msg) (sent r (c, w) ++ msg) (c, w) (put_in tcps ssls msg (c, w))
  unfolding put_in
  put_in-Sends r msg c w h room = elim (Bool-cases (leb capacity (length msg))) [
    | inr fits ↦ rw fits (
      (record c { writer = record c.writer { buf = c.writer.buf ++ msg } }, w),
      refl,
      record { inner = h.inner; at_end = h.at_end },
      sym (append_assoc (w.mocks r).writer.contents c.writer.buf msg),
      refl,
      refl,
    )
    | inl large ↦
        let (w', e, (at_end, got, kept)) = write-mock r msg w h.at_end in
        let empty = room (ground arith) in
        rw large (
          (c, w'),
          ap (λ i. outside tcps ssls c (Stream.write tcps ssls i msg w)) h.inner
              ∙ ap (outside tcps ssls c) e,
          record { inner = h.inner; at_end = at_end },
          ap (λ buf. (w'.mocks r).writer.contents ++ buf) empty
              ∙ append-nil (w'.mocks r).writer.contents
              ∙ got
              ∙ ap (λ buf. (w.mocks r).writer.contents ++ (buf ++ msg)) (sym empty)
              ∙ sym (append_assoc (w.mocks r).writer.contents c.writer.buf msg),
          refl,
          kept,
        )
  ]

  pub write-Sends :
      (r : ℕ) (msg : Bytes) (s : Wired W T L)
      → WritesTo r s
      → Sends r (length msg) (sent r s ++ msg) s (write tcps ssls msg s)
  unfolding write
  write-Sends r msg (c, w) h =
      let ((s₁, e₁, h₁, sent₁, reader₁, kept₁), room) = make_room-Sends r msg c w h in
      let (s₂, e₂, h₂, sent₂, reader₂, kept₂) = put_in-Sends r msg s₁.0 s₁.1 h₁ room in
      (
        s₂,
        ap (λ o. and_then o (λ _. put_in tcps ssls msg)) e₁ ∙ e₂,
        h₂,
        sent₂ ∙ ap (λ bytes. bytes ++ msg) sent₁,
        reader₂ ∙ reader₁,
        kept₂ ∙ kept₁,
      )

  pub flush-Sends :
      (r : ℕ) (s : Wired W T L)
      → WritesTo r s
      → (s' : Wired W T L) × (flush tcps ssls s ≡ done tt s')
        × WritesTo r s'
        × ((s'.1.mocks r).writer.contents ≡ sent r s)
        × (s'.0.writer.buf ≡ [])
        × (s'.0.reader ≡ s.0.reader)
        × ((s'.1.mocks r).reader ≡ (s.1.mocks r).reader)
  unfolding flush Stream.flush Mock.flush
  flush-Sends r (c, w) h =
      let (w', e, (at_end, got, kept)) = flush_buf-mock r c w h in
      (
        (emptied c, set_mock w' r (w'.mocks r)),
        ap
              (λ o.
                and_then o
                  (λ _ (c, w). outside tcps ssls c (Stream.flush tcps ssls c.writer.inner w)))
              e
            ∙ ap (λ i. outside tcps ssls (emptied c) (Stream.flush tcps ssls i w')) h.inner,
        record { inner = h.inner; at_end = rw (same_ref r) at_end },
        rw (same_ref r) got,
        refl,
        refl,
        rw (same_ref r) kept,
      )
