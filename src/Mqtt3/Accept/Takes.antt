-- ===== src/Mqtt3/Accept/Takes.antt =====
-- A reader takes a front part of the stream and leaves the rest; what it returns is tied to the
-- number of bytes taken. The rules follow the `do` blocks of the reader.
use rust_mq.Base.{
  ℕ, ◌+◌, ◌≤◌, ◌≡◌, refl, sym, ap, ◌∙◌, [], ◌∷◌, ◌++◌, length, length-append, All, take, drop,
  arith, append-nil, append_assoc, take-append-drop, length-take,
}
use rust_mq.Outcome.{Result, ok, err, Outcome, done, failed, and_then, from_result, kept}
use rust_mq.Mqtt3.Bytes.{Bytes, IsByte, IsU16}
use rust_mq.Mqtt3.Errors.{Error}
use rust_mq.Mqtt3.Stream.{Reader, read_u8, read_u16, read_to_end, put_back, limited}

pub data Takes {A : Type 0} (P : A → ℕ → Type 0) (s : Bytes) : Outcome Error Bytes A → Type 0 where
  takes :
      {a : A} {rest : Bytes} (front : Bytes)
      → s ≡ front ++ rest
      → P a (length front)
      → Takes P s (done a rest)
  refuses :
      {e : Error} {rest : Bytes} (front : Bytes) → s ≡ front ++ rest → Takes P s (failed e rest)

All-split : (front rest : Bytes) → All IsByte (front ++ rest) → All IsByte front × All IsByte rest
All-split [] rest h = (tt, h)
All-split (b ∷ front) rest h = let (f, r) = All-split front rest h.1 in ((h.0, f), r)

pub All-front :
    {s : Bytes} (front rest : Bytes) → s ≡ front ++ rest → All IsByte s → All IsByte front
All-front front rest e h = (All-split front rest (rw e at h)).0

pub All-rest : {s : Bytes} (front rest : Bytes) → s ≡ front ++ rest → All IsByte s → All IsByte rest
All-rest front rest e h = (All-split front rest (rw e at h)).1

pub Takes-after :
    {B : Type 0} {Q : B → ℕ → Type 0} (s front rest : Bytes) {o : Outcome Error Bytes B}
    → s ≡ front ++ rest
    → Takes (λ b k. Q b (length front + k)) rest o
    → Takes Q s o
Takes-after s front rest e (takes {rest = left} more e' q) =
    takes (front ++ more) (e ∙ ap (◌++◌ front) e' ∙ sym (append_assoc front more left))
      (rw (length-append front more) q)
Takes-after s front rest e (refuses {rest = left} more e') =
    refuses (front ++ more) (e ∙ ap (◌++◌ front) e' ∙ sym (append_assoc front more left))

module _ {A B : Type 0} where
  pub Takes-bind :
      {P : A → ℕ → Type 0} {Q : B → ℕ → Type 0} (s : Bytes) (f : A → Reader B)
      {o : Outcome Error Bytes A}
      → All IsByte s
      → Takes P s o
      → ((a : A) (n : ℕ) (rest : Bytes)
          → All IsByte rest
          → length s ≡ n + length rest
          → P a n
          → Takes (λ b k. Q b (n + k)) rest (f a rest))
      → Takes Q s (and_then o f)
  Takes-bind s f hs (takes {a} {rest} front e p) next = Takes-after s front rest e (
      next a (length front) rest (All-rest front rest e hs) (ap length e ∙ length-append front rest)
        p)
  Takes-bind s f hs (refuses front e) next = refuses front e

restored : (front w back s : Bytes) → front ++ w ≡ back → back ++ s ≡ front ++ (w ++ s)
restored front w back s e = rw (← e) (append_assoc front w s)

module _ {A : Type 0} where
  pub Takes-from_result :
      {P : A → ℕ → Type 0} (r : Result Error A) (s : Bytes)
      → ((a : A) → r ≡ ok a → P a 0)
      → Takes P s (from_result r s)
  Takes-from_result (ok a) s h = takes [] refl (h a refl)
  Takes-from_result (err e) s h = refuses [] refl

  abbrev pub OkIs : (A → ℕ → Type 0) → Result Error A → ℕ → Type 0
  OkIs P (ok a) n = P a n
  OkIs P (err e) n = Unit

  pub Takes-attempt :
      {P : A → ℕ → Type 0} {s : Bytes} {o : Outcome Error Bytes A}
      → Takes P s o
      → Takes (OkIs P) s (kept o)
  Takes-attempt (takes front e p) = takes front e p
  Takes-attempt (refuses front e) = takes front e tt

  pub Takes-weaken :
      {P Q : A → ℕ → Type 0} {s : Bytes} {o : Outcome Error Bytes A}
      → Takes P s o
      → ((a : A) (n : ℕ) → P a n → Q a n)
      → Takes Q s o
  Takes-weaken (takes front e p) f = takes front e (f _ (length front) p)
  Takes-weaken (refuses front e) f = refuses front e

  Takes-put_back :
      {P : A → ℕ → Type 0} (limit : ℕ) (s : Bytes) {o : Outcome Error Bytes A}
      → Takes P (take limit s) o
      → Takes (λ a n. P a n × (n ≤ limit)) s (put_back o (drop limit s))
  Takes-put_back limit s (takes {rest = w} front e p) =
      takes front
        (sym (take-append-drop limit s) ∙ restored front w (take limit s) (drop limit s) (sym e))
        (p, omega (arith, length-take limit s, ap length e, length-append front w))
  Takes-put_back limit s (refuses {rest = w} front e) =
      refuses front
        (sym (take-append-drop limit s) ∙ restored front w (take limit s) (drop limit s) (sym e))

  -- Under a limit a reader takes no more than the limit.
  pub Takes-limited :
      {P : A → ℕ → Type 0} (limit : ℕ) (m : Reader A) (s : Bytes)
      → Takes P (take limit s) (m (take limit s))
      → Takes (λ a n. P a n × (n ≤ limit)) s (limited limit m s)
  unfolding limited
  Takes-limited limit m s h = Takes-put_back limit s h

pub All-take : (n : ℕ) (s : Bytes) → All IsByte s → All IsByte (take n s)
All-take n s h = All-front (take n s) (drop n s) (sym (take-append-drop n s)) h

pub Takes-read_u8 : (s : Bytes) → All IsByte s → Takes (λ b n. IsByte b × (n ≡ 1)) s (read_u8 s)
unfolding read_u8
Takes-read_u8 [] h = refuses [] refl
Takes-read_u8 (b ∷ s) h = takes (b ∷ []) refl (h.0, refl)

pub Takes-read_u16 : (s : Bytes) → All IsByte s → Takes (λ v n. IsU16 v × (n ≡ 2)) s (read_u16 s)
unfolding read_u16
Takes-read_u16 [] h = refuses [] refl
Takes-read_u16 (a ∷ []) h = refuses (a ∷ []) refl
Takes-read_u16 (a ∷ b ∷ s) h = takes (a ∷ b ∷ []) refl (omega arith, refl)

pub Takes-to_end :
    (s : Bytes) → All IsByte s → Takes (λ a n. All IsByte a × (n ≡ length a)) s (read_to_end s)
unfolding read_to_end
Takes-to_end s h = takes s (sym (append-nil s)) (h, refl)
