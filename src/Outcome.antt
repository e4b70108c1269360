-- ===== src/Outcome.antt =====
-- Results of Rust code. `Result` is `Result<A, E>` of a pure function. An `Action` runs on a state
-- behind `&mut self`; its outcome keeps the state after an error too, since what was read, written
-- or changed before the error stays so.
use rust_mq.Base.{◌≡◌, refl, ◌⊎◌, inl, inr}

pub data Result {ℓ κ} (E : Type ℓ) (A : Type κ) : Type (ℓ ⊔ κ) where
  ok : A → Result E A
  err : E → Result E A

pub Result-cases {ℓ κ} :
    {E : Type ℓ} {A : Type κ} (r : Result E A) → ((a : A) × (r ≡ ok a)) ⊎ ((e : E) × (r ≡ err e))
Result-cases (ok a) = inl (a, refl)
Result-cases (err e) = inr (e, refl)

-- `panicked` is an unwinding panic. `stuck` is no outcome of the program: a loop of the model ran
-- out of its fuel.
pub data Outcome {ℓ κ μ} (E : Type ℓ) (S : Type κ) (A : Type μ) : Type (ℓ ⊔ κ ⊔ μ) where
  done : A → S → Outcome E S A
  failed : E → S → Outcome E S A
  panicked : Outcome E S A
  stuck : Outcome E S A

abbrev pub Action {ℓ κ μ} : Type ℓ → Type κ → Type μ → Type (ℓ ⊔ κ ⊔ μ)
Action E S A = S → Outcome E S A

module _ {ℓ κ μ ν} {E : Type ℓ} {S : Type κ} {A : Type μ} {B : Type ν} where
  abbrev pub and_then : Outcome E S A → (A → Action E S B) → Outcome E S B
  and_then (done a s) f = f a s
  and_then (failed e s) f = failed e s
  and_then panicked f = panicked
  and_then stuck f = stuck

module _ {ℓ κ μ ν} {E : Type ℓ} {S : Type κ} {A : Type μ} {B : Type ν} where
  infixl 5 ◌>>=◌ ◌>>◌
  abbrev pub ◌>>=◌ : Action E S A → (A → Action E S B) → Action E S B
  ◌>>=◌ m f s = and_then (m s) f

  abbrev pub ◌>>◌ : Action E S A → Action E S B → Action E S B
  ◌>>◌ m k s = and_then (m s) (λ _. k)

module _ {ℓ κ μ} {E : Type ℓ} {S : Type κ} {A : Type μ} where
  abbrev pub pure : A → Action E S A
  pure a s = done a s

  abbrev pub fail : E → Action E S A
  fail e s = failed e s

  -- `try!` on a result that reads no state.
  abbrev pub from_result : Result E A → Action E S A
  from_result (ok a) = pure a
  from_result (err e) = fail e

  -- `unwrap()` on such a result.
  abbrev pub unwrap : Result E A → Action E S A
  unwrap (ok a) s = done a s
  unwrap (err e) s = panicked

  -- A call whose `Result` is kept as a value, not passed on by `try!`.
  abbrev pub kept : Outcome E S A → Outcome E S (Result E A)
  kept (done a s) = done (ok a) s
  kept (failed e s) = done (err e) s
  kept panicked = panicked
  kept stuck = stuck

  abbrev pub attempt : Action E S A → Action E S (Result E A)
  attempt m s = kept (m s)
