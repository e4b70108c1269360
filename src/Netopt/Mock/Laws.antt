-- ===== src/Netopt/Mock/Laws.antt =====
-- What a mock stream of netopt/src/mock.rs gives back.
use rust_mq.Base.{
  ℕ, zero, suc, ◌+◌, ◌≤◌, ◌≡◌, refl, sym, ap, ◌∙◌, List, [], ◌∷◌, ◌++◌, append-nil, append_assoc,
  length, take, drop, length-append, arith,
}
use rust_mq.Outcome.{done, and_then, Action}
use rust_mq.Mqtt3.Errors.{ErrorKind}
use rust_mq.Mqtt3.Bytes.{Bytes}
use rust_mq.Netopt.Mock.{
  MockCursor, new_cursor, write_at, write_cursor, read_cursor, MockStream, take_vec, swap, write,
  read,
}

-- The writer stands at the end of what was written.
abbrev pub IsAtEnd : MockCursor → Type 0
IsAtEnd c = c.position ≡ length c.contents

-- What is still to be read.
abbrev pub to_come : MockCursor → Bytes
to_come c = drop c.position c.contents

drop-nil : (n : ℕ) → ◌≡◌ {A = Bytes} (drop n []) []
drop-nil zero = refl
drop-nil (suc n) = refl

drop-drop : (p k : ℕ) (xs : Bytes) → drop (p + k) xs ≡ drop k (drop p xs)
drop-drop zero k xs = ap (λ n. drop n xs) (omega arith)
drop-drop (suc p) k [] = let e : suc p + k ≡ suc (p + k) = omega arith in rw (e, drop-nil k) refl
drop-drop (suc p) k (x ∷ xs) =
    let e : suc p + k ≡ suc (p + k) = omega arith in rw e (drop-drop p k xs)

take-drop-length : (n : ℕ) (xs : Bytes) → take n xs ++ drop (length (take n xs)) xs ≡ xs
take-drop-length zero xs = refl
take-drop-length (suc n) [] = refl
take-drop-length (suc n) (x ∷ xs) = ap (◌∷◌ x) (take-drop-length n xs)

pub write_at-end : (msg old : Bytes) → write_at (length old) msg old ≡ old ++ msg
unfolding write_at
write_at-end msg [] = rw (drop-nil (length msg)) (append-nil msg)
write_at-end msg (b ∷ old) = ap (◌∷◌ b) (write_at-end msg old)

-- A write at the end of the contents adds to them, and stays at the end.
pub write_cursor-end :
    (msg : Bytes) (c : MockCursor)
    → IsAtEnd c
    → ((write_cursor msg c).1.contents ≡ c.contents ++ msg) × IsAtEnd (write_cursor msg c).1
unfolding write_cursor
write_cursor-end msg c h =
    let e : write_at c.position msg c.contents ≡ c.contents ++ msg =
      rw h (write_at-end msg c.contents) in
    (e, omega (arith, ap length e, length-append c.contents msg))

-- A read takes a front part of what is to come, as long as the buffer if there is so much.
pub read_cursor-to_come :
    (n : ℕ) (c : MockCursor)
    → ((read_cursor n c).0 ≡ take n (to_come c))
      × (to_come c ≡ (read_cursor n c).0 ++ to_come (read_cursor n c).1)
unfolding read_cursor
read_cursor-to_come n c = (
  refl,
  rw (drop-drop c.position (length (take n (to_come c))) c.contents)
      (sym (take-drop-length n (to_come c))),
)

abbrev pub concat : List Bytes → Bytes
concat [] = []
concat (msg ∷ msgs) = msg ++ concat msgs

take-all : (n : ℕ) (xs : Bytes) → length xs ≤ n → take n xs ≡ xs
take-all zero [] h = refl
take-all zero (x ∷ xs) h = absurd (omega arith)
take-all (suc n) [] h = refl
take-all (suc n) (x ∷ xs) h = ap (◌∷◌ x) (take-all n xs (omega arith))

-- Some writes, one after the other.
pub write_each : List Bytes → Action ErrorKind MockStream (Unit {0})
write_each [] m = done tt m
write_each (msg ∷ msgs) m = and_then (write msg m) (λ _. write_each msgs)

write_each-contents :
    (msgs : List Bytes) (m : MockStream)
    → IsAtEnd m.writer
    → (c : MockCursor) × (write_each msgs m ≡ done tt (record m { writer = c }))
      × (c.contents ≡ m.writer.contents ++ concat msgs)
unfolding write_each write
write_each-contents [] m h = (m.writer, refl, sym (append-nil m.writer.contents))
write_each-contents (msg ∷ msgs) m h =
    let c = (write_cursor msg m.writer).1 in
    let (e, at_end) = write_cursor-end msg m.writer h in
    let (c', written, whole) = write_each-contents msgs (record m { writer = c }) at_end in
    (c', written, whole ∙ rw e (append_assoc m.writer.contents msg (concat msgs)))

-- What was written to a mock stream, its writer at the end, is what `take_vec` gives, and what one
-- large enough read gives after `swap`. The writer then holds what the reader held, from the front:
-- `take_vec` gives that, and the next write goes over its beginning.
pub swap-write_each :
    (msgs : List Bytes) (msg : Bytes) (m : MockStream) (n : ℕ)
    → IsAtEnd m.writer
    → length (m.writer.contents ++ concat msgs) ≤ n
    → (m₁ m₂ m₃ : MockStream) × (write_each msgs m ≡ done tt m₁)
      × ((take_vec m₁).0 ≡ m.writer.contents ++ concat msgs)
      × (read n (swap m₁) ≡ done (m.writer.contents ++ concat msgs) m₂)
      × ((take_vec m₂).0 ≡ m.reader.contents)
      × (write msg m₂ ≡ done (length msg) m₃)
      × ((take_vec m₃).0 ≡ msg ++ drop (length msg) m.reader.contents)
unfolding swap read read_cursor take_vec write write_cursor write_at
swap-write_each msgs msg m n h fits =
    let (c, written, whole) = write_each-contents msgs m h in
    let all_of_it : take n c.contents ≡ m.writer.contents ++ concat msgs =
      rw whole (take-all n (m.writer.contents ++ concat msgs) fits) in
    let m₂ : MockStream = record {
      reader = record { position = 0 + length (take n c.contents); contents = c.contents };
      writer = new_cursor m.reader.contents;
    } in
    (
      record m { writer = c },
      m₂,
      record m₂ {
        writer = record {
          position = 0 + length msg;
          contents = msg ++ drop (length msg) m.reader.contents;
        };
      },
      written,
      whole,
      ap (λ out. done out m₂) all_of_it,
      refl,
      refl,
      refl,
    )
