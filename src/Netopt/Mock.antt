-- ===== src/Netopt/Mock.antt =====
-- netopt/src/mock.rs. A `MockStream` is two cursors behind `Arc`s: what is here is the state that all
-- of its clones share, so `clone` is no operation on it. No method panics with a lock held, so no lock
-- is poisoned.
pub mod Laws
use rust_mq.Base.{ℕ, zero, suc, ◌+◌, List, [], ◌∷◌, ◌++◌, Option, length, take, drop}
use rust_mq.Outcome.{Outcome, done, panicked, Action}
use rust_mq.Mqtt3.Bytes.{Bytes}
use rust_mq.Mqtt3.Errors.{ErrorKind}

-- `Cursor<Vec<u8>>` of the standard library.
pub record MockCursor : Type 0 where
  pub position : ℕ
  pub contents : Bytes

abbrev pub new_cursor : Bytes → MockCursor
new_cursor vec = record { position = 0; contents = vec }

-- A write at a position: zeros up to it where the contents end before it, and over what is there.
unfoldable pub write_at : ℕ → Bytes → Bytes → Bytes
write_at zero msg old = msg ++ drop (length msg) old
write_at (suc p) msg [] = 0 ∷ write_at p msg []
write_at (suc p) msg (b ∷ old) = b ∷ write_at p msg old

unfoldable pub write_cursor : Bytes → MockCursor → ℕ × MockCursor
unfolding write_at
write_cursor msg c = (
  length msg,
  record { position = c.position + length msg; contents = write_at c.position msg c.contents },
)

-- A read into a buffer of `n` bytes.
unfoldable pub read_cursor : ℕ → MockCursor → Bytes × MockCursor
read_cursor n c =
    let out = take n (drop c.position c.contents) in
    (out, record c { position = c.position + length out })

pub record MockStream : Type 0 where
  pub reader : MockCursor
  pub writer : MockCursor

unfoldable pub new : MockStream
new = record { reader = new_cursor []; writer = new_cursor [] }

unfoldable pub with_vec : Bytes → MockStream
with_vec vec = record { reader = new_cursor vec; writer = new_cursor [] }

unfoldable pub take_vec : MockStream → Bytes × MockStream
take_vec m = (m.writer.contents, record m { writer = new_cursor [] })

unfoldable pub next_vec : Bytes → MockStream → MockStream
next_vec vec m = record m { reader = new_cursor vec }

-- Both cursors are set to the front, and their contents change places.
unfoldable pub swap : MockStream → MockStream
swap m = record { reader = new_cursor m.writer.contents; writer = new_cursor m.reader.contents }

unfoldable pub write : Bytes → Action ErrorKind MockStream ℕ
unfolding write_cursor
write msg m = let (n, cursor) = write_cursor msg m.writer in done n (record m { writer = cursor })

unfoldable pub flush : Action ErrorKind MockStream (Unit {0})
flush m = done tt m

unfoldable pub read : ℕ → Action ErrorKind MockStream Bytes
unfolding read_cursor
read n m = let (out, cursor) = read_cursor n m.reader in done out (record m { reader = cursor })

-- `try_clone`, `get_ref`, `peer_addr`, `shutdown` and the two timeouts, which no one calls on a mock.
unfoldable pub not_called : {A : Type 0} → Action ErrorKind MockStream A
not_called m = panicked
