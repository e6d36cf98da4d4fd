-- ===== src/Engines/Ranking/Range.antt =====
-- The bounds of the scores of engines/ranking.py.
use native.Mathlib.Nat.{zero-mul}
use market_brain.Prelude.{ℕ, ◌+◌, ◌*◌, ◌^◌, ◌≤◌, ◌<◌, Option, none, some, arith}
use market_brain.Number.{Double, ◌⊕◌, ◌⊖◌, ◌⊗◌, ◌⊘◌, zero_f, IsOrdered, ◌≼◌, zero_refl, abs_f}
use market_brain.Number.Monotone.{IsMonotone}
use market_brain.Domain.{FeatureVector}
use market_brain.Engines.Ranking.{
  clamp, unit_clamp, return_points, vwap_points, volume_points, strength_points, momentum_of,
  score_features,
}

module _ {F : Type 0} ⦃num : Double F⦄ where
  -- between 0 and `n`
  abbrev pub IsWithin : ℕ → F → Type 0
  IsWithin n x = (zero_f ≼ x) × (x ≼ num.lit n 0)

module _ {F : Type 0} ⦃num : Double F⦄ (laws : IsOrdered F) (mono : IsMonotone F) where
  clamp-IsWithin : (n : ℕ) (x : F) → IsWithin n (clamp x zero_f (num.lit n 0))
  unfolding clamp
  clamp-IsWithin n x = ground (
    arith,
    zero_refl laws,
    laws.lit_mono 0 n 0,
    laws.lit_mono n n 0,
    laws.le_of_lt x (num.lit n 0),
    laws.le_of_lt zero_f x,
    laws.le_of_lt zero_f (num.lit n 0),
  )

  zero-IsWithin : (n : ℕ) → IsWithin {F = F} n zero_f
  zero-IsWithin n = (zero_refl laws, laws.lit_mono 0 n 0 (omega arith))

  add-IsWithin :
      (m n : ℕ) (x y : F) → m + n ≤ 2 ^ 53 → IsWithin m x → IsWithin n y → IsWithin (m + n) (x ⊕ y)
  add-IsWithin m n x y small (a, b) (c, d) = (
    rw (mono.lit-add 0 0 (omega arith)) at
        (mono.add_mono zero_f x zero_f y (zero_refl laws) a (zero_refl laws) c),
    rw (mono.lit-add m n small) at (mono.add_mono x (num.lit m 0) y (num.lit n 0) a b c d),
  )

  weigh-IsWithin :
      (m n : ℕ) (x : F)
      → 0 < n
      → n ≤ 2 ^ 53
      → m * n ≤ 2 ^ 53
      → IsWithin m x
      → IsWithin (m * n) (x ⊗ num.lit n 0)
  weigh-IsWithin m n x pos finite small (a, b) = (
    rw (mono.lit-mul 0 n (omega arith), zero-mul n) at
        (mono.mul_mono n zero_f x pos finite (zero_refl laws) a).0,
    rw (mono.lit-mul m n small) at (mono.mul_mono n x (num.lit m 0) pos finite a b).0,
  )

  round-IsWithin : (k n : ℕ) (x : F) → n ≤ 2 ^ 53 → IsWithin n x → IsWithin n (num.round k x)
  round-IsWithin k n x small (a, b) = (
    rw (mono.lit-round k 0 (omega arith)) at (mono.round_mono k zero_f x a),
    rw (mono.lit-round k n small) at (mono.round_mono k x (num.lit n 0) b),
  )

  unit-IsWithin : (x : F) → IsWithin 1 (unit_clamp x)
  unit-IsWithin x = clamp-IsWithin 1 x

  return_points-IsWithin : (x : Option F) → IsWithin 14 (return_points x)
  unfolding return_points
  return_points-IsWithin none = zero-IsWithin 14
  return_points-IsWithin (some x) =
      weigh-IsWithin 1 14 (unit_clamp (abs_f x ⊘ num.lit 3 0)) (omega arith) (omega arith)
        (omega arith) (unit-IsWithin (abs_f x ⊘ num.lit 3 0))

  vwap_points-IsWithin : (x : Option F) → IsWithin 6 (vwap_points x)
  unfolding vwap_points
  vwap_points-IsWithin none = zero-IsWithin 6
  vwap_points-IsWithin (some x) = ground (
    arith,
    zero-IsWithin 6,
    weigh-IsWithin 1 6 (unit_clamp (x ⊘ num.lit 1 0)) (omega arith) (omega arith) (omega arith)
        (unit-IsWithin (x ⊘ num.lit 1 0)),
  )

  volume_points-IsWithin : (x : Option F) → IsWithin 20 (volume_points x)
  unfolding volume_points
  volume_points-IsWithin none = zero-IsWithin 20
  volume_points-IsWithin (some x) =
      let y = (x ⊖ num.lit 5 1) ⊘ num.lit 25 1 in
      weigh-IsWithin 1 20 (unit_clamp y) (omega arith) (omega arith) (omega arith) (unit-IsWithin y)

  strength_points-IsWithin : (x : Option F) → IsWithin 15 (strength_points x)
  unfolding strength_points
  strength_points-IsWithin none = zero-IsWithin 15
  strength_points-IsWithin (some x) =
      let y = (x ⊕ num.lit 5 1) ⊘ num.lit 25 1 in
      weigh-IsWithin 1 15 (unit_clamp y) (omega arith) (omega arith) (omega arith) (unit-IsWithin y)

  module _ (features : FeatureVector F) (strength : IsWithin 1 features.catalyst_strength) where
    catalyst-IsWithin : IsWithin 20 (num.lit 20 0 ⊗ features.catalyst_strength)
    catalyst-IsWithin =
        let x = features.catalyst_strength in
        (
          rw (mono.lit-mul 20 0 (omega arith)) at
              (mono.mul_mono 20 zero_f x (omega arith) (omega arith) (zero_refl laws) strength.0).1,
          rw (mono.lit-mul 20 1 (omega arith)) at
              (mono.mul_mono 20 x (num.lit 1 0) (omega arith) (omega arith) strength.0
                strength.1).1,
        )

    momentum-IsWithin : IsWithin 20 (momentum_of features)
    momentum-IsWithin =
        let x = return_points features.price_return_pct in
        let y = vwap_points features.distance_from_vwap_pct in
        let first =
          add-IsWithin 0 14 zero_f x (omega arith) (zero-IsWithin 0)
            (return_points-IsWithin features.price_return_pct) in
        add-IsWithin 14 6 (zero_f ⊕ x) y (omega arith) first
          (vwap_points-IsWithin features.distance_from_vwap_pct)

    abbrev raw : F
    raw =
        num.lit 20 0 ⊗ features.catalyst_strength
        ⊕ momentum_of features
        ⊕ volume_points features.relative_volume
        ⊕ strength_points features.relative_strength_pct

    raw-IsWithin : IsWithin 75 raw
    raw-IsWithin =
        let c = num.lit 20 0 ⊗ features.catalyst_strength in
        let m = momentum_of features in
        let v = volume_points features.relative_volume in
        let r = strength_points features.relative_strength_pct in
        let first = add-IsWithin 20 20 c m (omega arith) catalyst-IsWithin momentum-IsWithin in
        let second =
          add-IsWithin 40 20 (c ⊕ m) v (omega arith) first
            (volume_points-IsWithin features.relative_volume) in
        add-IsWithin 60 15 (c ⊕ m ⊕ v) r (omega arith) second
          (strength_points-IsWithin features.relative_strength_pct)

    share-IsWithin : IsWithin 1 (raw ⊘ num.lit 75 0)
    share-IsWithin =
        let (a, b) = raw-IsWithin in
        (
          rw (mono.lit-div 0 75 (omega arith) (omega arith)) at
              (mono.div_mono 75 zero_f raw (omega arith) (omega arith) (zero_refl laws) a),
          rw (mono.lit-div 1 75 (omega arith) (omega arith)) at
              (mono.div_mono 75 raw (num.lit 75 0) (omega arith) (omega arith) a b),
        )

    -- With the laws of comparison and arithmetic, where the strength of the catalyst lies between 0
    -- and 1, each part of the score lies between 0 and its weight, and the total and the total of the
    -- discovery lie between 0 and 100, whatever the other features and the two given scores are.
    pub score_features-IsWithin :
        (structure_score rr_score : F)
        → let score = score_features features structure_score rr_score in
          IsWithin 20 score.catalyst_or_continuation
          × IsWithin 20 score.price_momentum
          × IsWithin 20 score.volume_liquidity
          × IsWithin 15 score.relative_strength_sector
          × IsWithin 15 score.entry_invalidation_structure
          × IsWithin 10 score.risk_reward
          × IsWithin 100 score.total
          × IsWithin 100 score.discovery_total
    unfolding score_features
    score_features-IsWithin structure_score rr_score =
        let structure = clamp structure_score zero_f (num.lit 15 0) in
        let reward = clamp rr_score zero_f (num.lit 10 0) in
        let first =
          add-IsWithin 75 15 raw structure (omega arith) raw-IsWithin
            (clamp-IsWithin 15 structure_score) in
        let total =
          add-IsWithin 90 10 (raw ⊕ structure) reward (omega arith) first
            (clamp-IsWithin 10 rr_score) in
        (
          round-IsWithin 2 20 _ (omega arith) catalyst-IsWithin,
          round-IsWithin 2 20 _ (omega arith) momentum-IsWithin,
          round-IsWithin 2 20 _ (omega arith) (volume_points-IsWithin features.relative_volume),
          round-IsWithin 2 15 _ (omega arith)
              (strength_points-IsWithin features.relative_strength_pct),
          round-IsWithin 2 15 _ (omega arith) (clamp-IsWithin 15 structure_score),
          round-IsWithin 2 10 _ (omega arith) (clamp-IsWithin 10 rr_score),
          round-IsWithin 2 100 _ (omega arith) total,
          round-IsWithin 2 100 _ (omega arith) (
              weigh-IsWithin 1 100 (raw ⊘ num.lit 75 0) (omega arith) (omega arith) (omega arith)
                share-IsWithin),
        )
