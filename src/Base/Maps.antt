-- ===== src/Base/Maps.antt =====
-- Maps as association lists: a key stands in the list once at most, as `insert` removes it first.
use mathlib.Core.Path.{◌≡◌, refl, sym, ◌∙◌}
use mathlib.Core.Logic.{◌≢◌, ◌↔◌}
use mathlib.Core.Bool.{Bool, true, false}
use mathlib.Core.Option.{Option, none, some}
use mathlib.Core.List.{List, [], ◌∷◌}
use rust_mq.Base.{if◌then◌else◌, Bool-cases, inl, inr}

module _ {K V : Type 0} (eq : K → K → Bool) where
  unfoldable pub lookup : K → List (K × V) → Option V
  lookup k [] = none
  lookup k (e ∷ m) = if eq k e.0 then some e.1 else lookup k m

  unfoldable pub remove : K → List (K × V) → List (K × V)
  remove k [] = []
  remove k (e ∷ m) = let rest = remove k m in if eq k e.0 then rest else e ∷ rest

  unfoldable pub insert : K → V → List (K × V) → List (K × V)
  unfolding remove
  insert k v m = (k, v) ∷ remove k m

  pub lookup-insert :
      (k : K) (v : V) (m : List (K × V)) → eq k k ≡ true → lookup k (insert k v m) ≡ some v
  unfolding lookup insert
  lookup-insert k v m self = rw self refl

  pub lookup-remove : (k : K) (m : List (K × V)) → lookup k (remove k m) ≡ none
  unfolding lookup remove
  lookup-remove k [] = refl
  lookup-remove k (e ∷ m) = elim (Bool-cases (eq k e.0)) [
    | inl same ↦ rw same (lookup-remove k m)
    | inr other ↦ rw (other, other) (lookup-remove k m)
  ]

module _ {K : Type 0} (eq : K → K → Bool) (eq_iff : (a b : K) → (eq a b ≡ true) ↔ (a ≡ b)) where
  eq-false : (a b : K) → a ≢ b → eq a b ≡ false
  eq-false a b h = elim (Bool-cases (eq a b)) [ inl e ↦ absurd (h ((eq_iff a b).0 e)) | inr e ↦ e ]

  pub lookup-remove_other :
      {V : Type 0} (k k' : K) (m : List (K × V))
      → k ≢ k'
      → lookup eq k (remove eq k' m) ≡ lookup eq k m
  unfolding lookup remove
  lookup-remove_other k k' [] h = refl
  lookup-remove_other k k' (e ∷ m) h = elim (Bool-cases (eq k' e.0)) [
    | inl same ↦
        let differs : k ≢ e.0 = λ p. h (p ∙ sym ((eq_iff k' e.0).0 same)) in
        rw (same, eq-false k e.0 differs) (lookup-remove_other k k' m h)
    | inr other ↦ rw other (elim (Bool-cases (eq k e.0)) [
      | inl found ↦ rw found refl
      | inr passed ↦ rw passed (lookup-remove_other k k' m h)
    ])
  ]

  pub lookup-insert_other :
      {V : Type 0} (k k' : K) (v : V) (m : List (K × V))
      → k ≢ k'
      → lookup eq k (insert eq k' v m) ≡ lookup eq k m
  unfolding lookup insert
  lookup-insert_other k k' v m h = rw (eq-false k k' h) (lookup-remove_other k k' m h)
