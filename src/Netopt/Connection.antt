-- ===== src/Netopt/Connection.antt =====
-- `Connection` of netopt/src/conn.rs, with `BufReader` and `BufWriter` of the standard library, each
-- with a buffer of 8 KiB.
pub mod Sending
pub mod Receiving
pub mod Delivery
use rust_mq.Base.{
  ℕ, zero, suc, ◌+◌, ◌≤◌, ◌==◌, ltb, leb, Bool, true, false, ◌&&◌, List, [], ◌∷◌, ◌++◌, Option,
  length, take, drop, if◌then◌else◌,
}
use rust_mq.Outcome.{Outcome, done, failed, panicked, stuck, Action, and_then, ◌>>=◌, ◌>>◌, pure}
use rust_mq.Mqtt3.Bytes.{Bytes}
use rust_mq.Mqtt3.Errors.{ErrorKind}
use rust_mq.Mqtt3.Errors
use rust_mq.Netopt.Stream.{Tcp, Ssl, World, NetworkStream, shut_both}
use rust_mq.Netopt.Stream

abbrev pub capacity : ℕ
capacity = 8192

-- A stream and the bytes read from it that were not asked for yet, or written and not sent yet.
pub record Buffered (T L : Type 0) : Type 0 where
  pub inner : NetworkStream T L
  pub buf : Bytes

pub record Connection (T L : Type 0) : Type 0 where
  pub stream : NetworkStream T L
  pub reader : Buffered T L
  pub writer : Buffered T L

-- The connection and the world outside it.
abbrev pub Wired : Type 0 → Type 0 → Type 0 → Type 0
Wired W T L = Connection T L × World W

-- `split` gives the two buffers away and drops the stream.
unfoldable pub split : {T L : Type 0} → Connection T L → Buffered T L × Buffered T L
split c = (c.reader, c.writer)

module _ {W T L X A : Type 0} (tcps : Tcp W T A) (ssls : Ssl W T L X) where
  unfoldable pub new : NetworkStream T L → Action ErrorKind (World W) (Connection T L)
  unfolding Stream.try_clone
  new stream = do
    own ← Stream.try_clone tcps ssls stream
    reader ← Stream.try_clone tcps ssls stream
    writer ← Stream.try_clone tcps ssls stream
    pure (record {
      stream = own;
      reader = record { inner = reader; buf = [] };
      writer = record { inner = writer; buf = [] };
    })

  -- A call on one of the streams.
  abbrev outside :
      {B : Type 0}
      → Connection T L
      → Outcome ErrorKind (World W) B
      → Outcome ErrorKind (Wired W T L) B
  outside c (done b w) = done b (c, w)
  outside c (failed e w) = failed e (c, w)
  outside c panicked = panicked
  outside c stuck = stuck

  unfoldable pub set_read_timeout : Option ℕ → Action ErrorKind (Wired W T L) (Unit {0})
  unfolding Stream.set_read_timeout
  set_read_timeout dur (c, w) = outside c (Stream.set_read_timeout tcps ssls c.stream dur w)

  unfoldable pub terminate : Action ErrorKind (Wired W T L) (Unit {0})
  unfolding Stream.shutdown
  terminate (c, w) = outside c (Stream.shutdown tcps ssls c.stream shut_both w)

  abbrev after_write :
      Action ErrorKind (Bytes × World W) (Unit {0})
      → Bytes
      → Outcome ErrorKind (World W) ℕ
      → Outcome ErrorKind (Bytes × World W) (Unit {0})
  after_write next rest (done zero w) = failed Errors.other (rest, w)
  after_write next rest (done (suc n) w) = next (drop (suc n) rest, w)
  after_write next rest (failed e w) = failed e (rest, w)
  after_write next rest panicked = panicked
  after_write next rest stuck = stuck

  -- The loop of `BufWriter::flush_buf`: the stream takes some of the bytes in each round. What it has
  -- taken is out of the buffer also after an error. An interrupted write of a socket is tried again
  -- inside of `write`.
  unfoldable pub drain : ℕ → NetworkStream T L → Action ErrorKind (Bytes × World W) (Unit {0})
  unfolding Stream.write
  drain zero stream (rest, w) = stuck
  drain (suc fuel) stream ([], w) = done tt ([], w)
  drain (suc fuel) stream (b ∷ rest, w) =
      after_write (drain fuel stream) (b ∷ rest) (Stream.write tcps ssls stream (b ∷ rest) w)

  abbrev drained :
      Connection T L
      → Outcome ErrorKind (Bytes × World W) (Unit {0})
      → Outcome ErrorKind (Wired W T L) (Unit {0})
  drained c (done u (rest, w)) = done tt (record c { writer = record c.writer { buf = rest } }, w)
  drained c (failed e (rest, w)) =
      failed e (record c { writer = record c.writer { buf = rest } }, w)
  drained c panicked = panicked
  drained c stuck = stuck

  -- One round more than there are bytes in the buffer is enough, since each round sends one at least.
  unfoldable pub flush_buf : Action ErrorKind (Wired W T L) (Unit {0})
  unfolding drain
  flush_buf (c, w) = drained c (drain (suc (length c.writer.buf)) c.writer.inner (c.writer.buf, w))

  abbrev make_room : Bytes → Action ErrorKind (Wired W T L) (Unit {0})
  unfolding flush_buf
  make_room msg (c, w) =
      if ltb capacity (length c.writer.buf + length msg) then flush_buf (c, w) else done tt (c, w)

  abbrev put_in : Bytes → Action ErrorKind (Wired W T L) ℕ
  unfolding Stream.write
  put_in msg (c, w) =
      if leb capacity (length msg)
      then outside c (Stream.write tcps ssls c.writer.inner msg w)
      else done (length msg)
          (record c { writer = record c.writer { buf = c.writer.buf ++ msg } }, w)

  -- `BufWriter::write` and `flush`.
  unfoldable pub write : Bytes → Action ErrorKind (Wired W T L) ℕ
  unfolding flush_buf Stream.write
  write msg = do make_room msg; put_in msg

  unfoldable pub flush : Action ErrorKind (Wired W T L) (Unit {0})
  unfolding flush_buf Stream.flush
  flush = do flush_buf; λ (c, w). outside c (Stream.flush tcps ssls c.writer.inner w)

  abbrev filled :
      ℕ → Connection T L → Outcome ErrorKind (World W) Bytes → Outcome ErrorKind (Wired W T L) Bytes
  filled n c (done buf w) =
      done (take n buf) (record c { reader = record c.reader { buf = drop n buf } }, w)
  filled n c (failed e w) = failed e (c, w)
  filled n c panicked = panicked
  filled n c stuck = stuck

  abbrev read_from : ℕ → Bytes → Action ErrorKind (Wired W T L) Bytes
  unfolding Stream.read
  read_from n [] (c, w) =
      if leb capacity n
      then outside c (Stream.read tcps ssls c.reader.inner n w)
      else filled n c (Stream.read tcps ssls c.reader.inner capacity w)
  read_from n (b ∷ buf) (c, w) =
      done (take n (b ∷ buf)) (record c { reader = record c.reader { buf = drop n (b ∷ buf) } }, w)

  -- `BufReader::read`.
  unfoldable pub read : ℕ → Action ErrorKind (Wired W T L) Bytes
  unfolding Stream.read
  read n (c, w) = read_from n c.reader.buf (c, w)
