-- ===== src/Prelude/Sorting.antt =====
-- Python's `sorted` with a key, which keeps the order of equals. The test is `key(x) <= key(y)`.
use market_brain.Prelude.Tests.{if◌then◌else◌, Bool-cases}
use market_brain.Prelude.Lists.{All, count}
use native.Mathlib.Omega.{arith}
use mathlib.Core.Path.{◌≡◌, refl}
use mathlib.Core.Logic.{inl, inr}
use mathlib.Core.Bool.{Bool, true, false}
use mathlib.Core.List.{List, [], ◌∷◌}

module _ {ℓ} {A : Type ℓ} where
  -- every element stands in a relation to all that follow it
  abbrev pub Ordered {κ} : (A → A → Type κ) → List A → Type κ
  Ordered R [] = Unit
  Ordered R (x ∷ xs) = All (R x) xs × Ordered R xs

  module _ {κ μ} (R : A → A → Type κ) (S : A → A → Type μ) (below : (x y : A) → R x y → S x y) where
    Ordered-All : (x : A) (xs : List A) → All (R x) xs → All (S x) xs
    Ordered-All x [] h = tt
    Ordered-All x (y ∷ ys) h = (below x y h.0, Ordered-All x ys h.1)

    pub Ordered-map : (xs : List A) → Ordered R xs → Ordered S xs
    Ordered-map [] h = tt
    Ordered-map (x ∷ xs) h = (Ordered-All x xs h.0, Ordered-map xs h.1)

module _ {ℓ} {A : Type ℓ} (le : A → A → Bool) where
  pub place : A → List A → List A
  place x [] = x ∷ []
  place x (y ∷ ys) = if le x y then x ∷ y ∷ ys else y ∷ place x ys

  unfoldable pub sort_by : List A → List A
  unfolding place
  sort_by [] = []
  sort_by (x ∷ xs) = place x (sort_by xs)

  place-All {κ} : (P : A → Type κ) (x : A) (xs : List A) → P x → All P xs → All P (place x xs)
  unfolding place
  place-All P x [] p h = (p, tt)
  place-All P x (y ∷ ys) p h = elim (Bool-cases (le x y)) as (λ _. All P (place x (y ∷ ys))) [
    | inl e ↦ rw e (p, h)
    | inr e ↦ rw e (h.0, place-All P x ys p h.1)
  ]

  pub sort_by-All {κ} : (P : A → Type κ) (xs : List A) → All P xs → All P (sort_by xs)
  unfolding sort_by
  sort_by-All P [] h = tt
  sort_by-All P (x ∷ xs) h = place-All P x (sort_by xs) h.0 (sort_by-All P xs h.1)

  count-place : (p : A → Bool) (x : A) (xs : List A) → count p (place x xs) ≡ count p (x ∷ xs)
  unfolding place count
  count-place p x [] = refl
  count-place p x (y ∷ ys) = ground (arith, count-place p x ys)

  -- Sorting keeps what there is, as often.
  pub count-sort_by : (p : A → Bool) (xs : List A) → count p (sort_by xs) ≡ count p xs
  unfolding sort_by count
  count-sort_by p [] = refl
  count-sort_by p (x ∷ xs) = ground (arith, count-place p x (sort_by xs), count-sort_by p xs)

  module _ {κ} (R : A → A → Type κ) (before : (x y : A) → le x y ≡ true → R x y)
      (after : (x y : A) → le x y ≡ false → R y x)
      (trans : (x y z : A) → R x y → R y z → R x z) where
    above_trans : (x y : A) (ys : List A) → R x y → All (R y) ys → All (R x) ys
    above_trans x y [] e h = tt
    above_trans x y (z ∷ zs) e h = (trans x y z e h.0, above_trans x y zs e h.1)

    place-Ordered : (x : A) (xs : List A) → Ordered R xs → Ordered R (place x xs)
    unfolding place
    place-Ordered x [] h = (tt, tt)
    place-Ordered x (y ∷ ys) h = elim (Bool-cases (le x y)) as (λ _. Ordered R (place x (y ∷ ys))) [
      | inl e ↦ rw e ((before x y e, above_trans x y ys (before x y e) h.0), h)
      | inr e ↦ rw e (place-All (R y) x ys (after x y e) h.0, place-Ordered x ys h.1)
    ]

    -- Sorting orders by every relation that the test decides.
    pub sort_by-Ordered : (xs : List A) → Ordered R (sort_by xs)
    unfolding sort_by
    sort_by-Ordered [] = tt
    sort_by-Ordered (x ∷ xs) = place-Ordered x (sort_by xs) (sort_by-Ordered xs)
