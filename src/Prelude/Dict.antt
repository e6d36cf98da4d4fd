-- ===== src/Prelude/Dict.antt =====
-- A Python dict with string keys, in insertion order: a write to a key that is there keeps its
-- place, and a write to a new key goes to the end.
use Prim.Native.String.{String}
use mathlib.Core.Path.{◌≡◌, refl}
use mathlib.Core.Bool.{Bool}
use mathlib.Core.Option.{Option, none, some}
use mathlib.Core.List.{List, [], ◌∷◌}
use native.Mathlib.Omega.{arith}
use text.Mathlib.Text.{◌==◌}
use text.Mathlib.TextEquality.{eq_iff}
use market_brain.Prelude.Tests.{if◌then◌else◌}

abbrev pub Dict {ℓ} : Type ℓ → Type ℓ
Dict V = List (String × V)

module _ {ℓ} {V : Type ℓ} where
  -- `d.get(k)`
  unfoldable pub lookup : String → Dict V → Option V
  lookup k [] = none
  lookup k ((j, v) ∷ d) = if j == k then some v else lookup k d

  -- `d[k] = v`
  unfoldable pub insert : String → V → Dict V → Dict V
  insert k v [] = (k, v) ∷ []
  insert k v ((j, w) ∷ d) = if j == k then (j, v) ∷ d else (j, w) ∷ insert k v d

  -- `d.pop(k, None)`
  unfoldable pub erase : String → Dict V → Dict V
  erase k [] = []
  erase k ((j, w) ∷ d) = if j == k then d else (j, w) ∷ erase k d

  -- `list(d.values())`
  unfoldable pub values : Dict V → List V
  values [] = []
  values ((j, v) ∷ d) = v ∷ values d

  pub lookup-insert :
      (k j : String) (v : V) (d : Dict V)
      → lookup j (insert k v d) ≡ (if k == j then some v else lookup j d)
  unfolding lookup insert
  lookup-insert k j v [] = refl
  lookup-insert k j v ((i, w) ∷ d) =
      ground (arith, eq_iff k j, eq_iff i k, eq_iff i j, lookup-insert k j v d)

  pub lookup-insert_own : (k : String) (v : V) (d : Dict V) → lookup k (insert k v d) ≡ some v
  unfolding lookup insert
  lookup-insert_own k v d = ground (arith, eq_iff k k, lookup-insert k k v d)

  pub lookup-erase_ne :
      (k j : String) (d : Dict V) → (k == j) ≡ Bool.false → lookup j (erase k d) ≡ lookup j d
  unfolding lookup erase
  lookup-erase_ne k j [] h = refl
  lookup-erase_ne k j ((i, w) ∷ d) h =
      ground (arith, eq_iff k j, eq_iff i k, eq_iff i j, lookup-erase_ne k j d h)

  -- Writing a key twice is writing the second value.
  pub insert-insert : (k : String) (v w : V) (d : Dict V) → insert k w (insert k v d) ≡ insert k w d
  unfolding insert
  insert-insert k v w [] = ground (arith, eq_iff k k)
  insert-insert k v w ((i, u) ∷ d) = ground (arith, eq_iff i k, insert-insert k v w d)

  -- Every value stands under its own key, and no key stands twice.
  abbrev pub Keyed : (V → String) → Dict V → Type ℓ
  Keyed id [] = Unit
  Keyed id ((j, v) ∷ d) = (id v ≡ j) × (lookup j d ≡ none) × Keyed id d

  lookup-erase-none : (j k : String) (d : Dict V) → lookup j d ≡ none → lookup j (erase k d) ≡ none
  unfolding lookup erase
  lookup-erase-none j k [] h = refl
  lookup-erase-none j k ((i, w) ∷ d) h =
      ground (arith, eq_iff i k, eq_iff i j, lookup-erase-none j k d)

  pub Keyed-insert :
      (id : V → String) (v : V) (d : Dict V) → Keyed id d → Keyed id (insert (id v) v d)
  unfolding lookup insert
  Keyed-insert id v [] h = (refl, refl, tt)
  Keyed-insert id v ((j, w) ∷ d) (e, n, h) =
      ground
        (arith, eq_iff j (id v), eq_iff (id v) j, lookup-insert (id v) j v d, Keyed-insert id v d h)

  pub Keyed-erase : (id : V → String) (k : String) (d : Dict V) → Keyed id d → Keyed id (erase k d)
  unfolding erase
  Keyed-erase id k [] h = tt
  Keyed-erase id k ((j, w) ∷ d) (e, n, h) =
      ground (arith, lookup-erase-none j k d n, Keyed-erase id k d h)

  pub lookup-erase_own :
      (id : V → String) (k : String) (d : Dict V) → Keyed id d → lookup k (erase k d) ≡ none
  unfolding lookup erase
  lookup-erase_own id k [] h = refl
  lookup-erase_own id k ((j, w) ∷ d) (e, n, h) =
      ground (arith, eq_iff j k, lookup-erase_own id k d h)

  pub Keyed-lookup :
      (id : V → String) (k : String) (d : Dict V) {v : V}
      → Keyed id d
      → lookup k d ≡ some v
      → id v ≡ k
  unfolding lookup
  Keyed-lookup id k [] h e = absurd (ground arith)
  Keyed-lookup id k ((j, w) ∷ d) {v} (i, n, h) e =
      ground (arith, eq_iff j k, Keyed-lookup id k d {v = v} h)

  -- Writing what is there changes nothing.
  pub insert-lookup : (k : String) (v : V) (d : Dict V) → lookup k d ≡ some v → insert k v d ≡ d
  unfolding insert lookup
  insert-lookup k v [] e = absurd (ground arith)
  insert-lookup k v ((j, w) ∷ d) e = ground (arith, insert-lookup k v d)

  pub insert-lookup_own :
      (id : V → String) (k : String) (d : Dict V) {v : V}
      → Keyed id d
      → lookup k d ≡ some v
      → insert (id v) v d ≡ d
  insert-lookup_own id k d {v} h e = insert-lookup (id v) v d (rw (Keyed-lookup id k d h e) e)
