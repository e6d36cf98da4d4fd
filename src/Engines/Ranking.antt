-- ===== src/Engines/Ranking.antt =====
-- engines/ranking.py: the score of the features.
pub mod Range
use market_brain.Prelude.{Bool, not, Option, none, some, ◌++◌, if◌then◌else◌}
use market_brain.Prelude.Lists.{reason_if}
use market_brain.Number.{Double, ◌⊕◌, ◌⊖◌, ◌⊗◌, ◌⊘◌, ◌<?◌, zero_f, max_f, min_f, abs_f, is_zero_f}
use market_brain.Domain.{FeatureVector, ScoreCard}

module _ {F : Type 0} ⦃num : Double F⦄ where
  -- `_clamp`
  unfoldable pub clamp : F → F → F → F
  clamp value low high = max_f low (min_f high value)

  -- `_clamp(x, 0.0, 1.0)`
  abbrev pub unit_clamp : F → F
  unit_clamp x = clamp x zero_f (num.lit 1 0)

  unfoldable pub return_points : Option F → F
  unfolding clamp
  return_points none = zero_f
  return_points (some x) = unit_clamp (abs_f x ⊘ num.lit 3 0) ⊗ num.lit 14 0

  unfoldable pub vwap_points : Option F → F
  unfolding clamp
  vwap_points none = zero_f
  vwap_points (some x) = if zero_f <? x then unit_clamp (x ⊘ num.lit 1 0) ⊗ num.lit 6 0 else zero_f

  -- `momentum`: nothing is added where a feature is missing
  abbrev pub momentum_of : FeatureVector F → F
  momentum_of features =
      zero_f ⊕ return_points features.price_return_pct ⊕ vwap_points features.distance_from_vwap_pct

  unfoldable pub volume_points : Option F → F
  unfolding clamp
  volume_points none = zero_f
  volume_points (some x) = unit_clamp ((x ⊖ num.lit 5 1) ⊘ num.lit 25 1) ⊗ num.lit 20 0

  unfoldable pub strength_points : Option F → F
  unfolding clamp
  strength_points none = zero_f
  strength_points (some x) = unit_clamp ((x ⊕ num.lit 5 1) ⊘ num.lit 25 1) ⊗ num.lit 15 0

  abbrev pub is_negative : Option F → Bool
  is_negative none = Bool.false
  is_negative (some x) = x <? zero_f

  unfoldable pub score_features : FeatureVector F → F → F → ScoreCard F
  unfolding clamp return_points vwap_points volume_points strength_points
  score_features features structure_score rr_score =
      let catalyst = num.lit 20 0 ⊗ features.catalyst_strength in
      let momentum = momentum_of features in
      let volume = volume_points features.relative_volume in
      let relative = strength_points features.relative_strength_pct in
      let structure = clamp structure_score zero_f (num.lit 15 0) in
      let risk_reward = clamp rr_score zero_f (num.lit 10 0) in
      let discovery_raw = catalyst ⊕ momentum ⊕ volume ⊕ relative in
      record {
        symbol = features.symbol;
        catalyst_or_continuation = num.round 2 catalyst;
        price_momentum = num.round 2 momentum;
        volume_liquidity = num.round 2 volume;
        relative_strength_sector = num.round 2 relative;
        entry_invalidation_structure = num.round 2 structure;
        risk_reward = num.round 2 risk_reward;
        total = num.round 2 (discovery_raw ⊕ structure ⊕ risk_reward);
        discovery_total = num.round 2 (discovery_raw ⊘ num.lit 75 0 ⊗ num.lit 100 0);
        reasons =
            reason_if (not features.liquidity_ok) "LIQUIDITY_WEAK"
            ++ (reason_if (is_zero_f features.catalyst_strength) "NO_VERIFIED_CATALYST"
                ++ reason_if (is_negative features.relative_strength_pct)
                    "RELATIVE_STRENGTH_NEGATIVE");
      }
