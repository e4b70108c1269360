-- ===== src/Netopt/Connection/Receiving.antt =====
-- One read of a `Connection` of netopt/src/conn.rs over a mock stream.
use rust_mq.Base.{
  ℕ, zero, suc, ◌≤◌, ◌<◌, ◌≡◌, refl, sym, ap, ◌∙◌, leb, [], ◌∷◌, ◌++◌, length, take, drop,
  take-append-drop, length-take, Bool-cases, inl, inr, append_assoc, arith,
}
use rust_mq.Outcome.{Outcome, done}
use rust_mq.Mqtt3.Bytes.{Bytes}
use rust_mq.Mqtt3.Errors.{ErrorKind}
use rust_mq.Netopt.Mock.{MockStream, MockCursor, read_cursor}
use rust_mq.Netopt.Mock
use rust_mq.Netopt.Mock.Laws.{to_come, read_cursor-to_come}
use rust_mq.Netopt.Stream.{Tcp, Ssl, World, NetworkStream, mock, set_mock}
use rust_mq.Netopt.Stream
use rust_mq.Netopt.Connection.{capacity, Connection, Wired, outside, filled, read_from, read}
use rust_mq.Netopt.Connection.Sending.{same_ref}

module _ {W T L X A : Type 0} (tcps : Tcp W T A) (ssls : Ssl W T L X) where
  -- What is still to be read, of the buffer and then of the stream.
  abbrev pub comes : ℕ → Wired W T L → Bytes
  comes r s = s.0.reader.buf ++ to_come (s.1.mocks r).reader

  read-mock :
      (r n : ℕ) (w : World W)
      → (w' : World W) × (Stream.read tcps ssls (mock r) n w
          ≡ done (take n (to_come (w.mocks r).reader)) w')
        × (to_come (w.mocks r).reader
            ≡ take n (to_come (w.mocks r).reader) ++ to_come (w'.mocks r).reader)
        × ((w'.mocks r).writer ≡ (w.mocks r).writer)
  unfolding Stream.read Mock.read read_cursor
  read-mock r n w =
      let m : MockStream = record (w.mocks r) { reader = (read_cursor n (w.mocks r).reader).1 } in
      let (e, rest) = read_cursor-to_come n (w.mocks r).reader in
      (set_mock w r m, refl, rw (same_ref r) rest, rw (same_ref r) refl)

  -- A read that gives a front part of what comes, not an empty one if there is something to come and to
  -- be read, and leaves the rest of it.
  abbrev pub Takes : ℕ → ℕ → Wired W T L → Outcome ErrorKind (Wired W T L) Bytes → Type 0
  Takes r n s o =
      (out : Bytes) × (s' : Wired W T L) × (o ≡ done out s')
      × (comes r s ≡ out ++ comes r s')
      × (length out ≤ n)
      × (0 < n → 0 < length (comes r s) → 0 < length out)
      × (s'.0.reader.inner ≡ s.0.reader.inner)
      × (s'.0.writer ≡ s.0.writer)
      × ((s'.1.mocks r).writer ≡ (s.1.mocks r).writer)

  length-take-le : (n : ℕ) (xs : Bytes) → length (take n xs) ≤ n
  length-take-le zero xs = omega arith
  length-take-le (suc n) [] = omega arith
  length-take-le (suc n) (x ∷ xs) = omega (arith, length-take-le n xs)

  take_some : (n : ℕ) (xs : Bytes) → 0 < n → 0 < length xs → 0 < length (take n xs)
  take_some n xs h k = omega (arith, length-take n xs)

  read_from-Takes :
      (r n : ℕ) (buf : Bytes) (c : Connection T L) (w : World W)
      → c.reader.inner ≡ mock r
      → c.reader.buf ≡ buf
      → Takes r n (c, w) (read_from tcps ssls n buf (c, w))
  unfolding read_from
  read_from-Takes r n (b ∷ buf) c w inner e = (
    take n (b ∷ buf),
    (record c { reader = record c.reader { buf = drop n (b ∷ buf) } }, w),
    refl,
    ap (λ (xs : Bytes). xs ++ to_come (w.mocks r).reader) (e ∙ sym (take-append-drop n (b ∷ buf)))
        ∙ append_assoc (take n (b ∷ buf)) (drop n (b ∷ buf)) (to_come (w.mocks r).reader),
    length-take-le n (b ∷ buf),
    λ h _. take_some n (b ∷ buf) h (omega arith),
    refl,
    refl,
    refl,
  )
  read_from-Takes r n [] c w inner e = elim (Bool-cases (leb capacity n)) [
    | inl large ↦
        let (w', got, rest, kept) = read-mock r n w in
        rw large (
          take n (to_come (w.mocks r).reader),
          (c, w'),
          ap (λ i. outside tcps ssls c (Stream.read tcps ssls i n w)) inner
              ∙ ap (outside tcps ssls c) got,
          ap (λ (xs : Bytes). xs ++ to_come (w.mocks r).reader) e
              ∙ rest
              ∙ ap
                  (λ (xs : Bytes).
                    take n (to_come (w.mocks r).reader) ++ (xs ++ to_come (w'.mocks r).reader))
                  (sym e),
          length-take-le n (to_come (w.mocks r).reader),
          λ h k. take_some n (to_come (w.mocks r).reader) h (rw e at k),
          refl,
          refl,
          kept,
        )
    | inr small ↦
        let (w', got, rest, kept) = read-mock r capacity w in
        let buf = take capacity (to_come (w.mocks r).reader) in
        rw small (
          take n buf,
          (record c { reader = record c.reader { buf = drop n buf } }, w'),
          ap (λ i. filled tcps ssls n c (Stream.read tcps ssls i capacity w)) inner
              ∙ ap (filled tcps ssls n c) got,
          ap (λ (xs : Bytes). xs ++ to_come (w.mocks r).reader) e
              ∙ rest
              ∙ ap (λ (xs : Bytes). xs ++ to_come (w'.mocks r).reader)
                  (sym (take-append-drop n buf))
              ∙ append_assoc (take n buf) (drop n buf) (to_come (w'.mocks r).reader),
          length-take-le n buf,
          λ h k.
              take_some n buf h
                (take_some capacity (to_come (w.mocks r).reader) (omega arith) (rw e at k)),
          refl,
          refl,
          kept,
        )
  ]

  -- A read of a connection over a mock stream gives a front part of the bytes that come, those in the
  -- buffer first, as long as it was asked for at most, and not an empty one if something comes and was
  -- asked for; the rest of them comes after it, and the writing side is as it was.
  pub read-Takes :
      (r n : ℕ) (s : Wired W T L) → s.0.reader.inner ≡ mock r → Takes r n s (read tcps ssls n s)
  unfolding read
  read-Takes r n (c, w) inner = read_from-Takes r n c.reader.buf c w inner refl
