-- ===== src/Engines/Volatility.antt =====
-- engines/volatility.py: Wilder's average true range and the gates that read it.
pub mod Gate
pub mod Wilder
use market_brain.Prelude.{
  ℕ, ◌+◌, ◌-◌, String, Bool, true, false, ◌||◌, ◌&&◌, Option, none, some, List, [], ◌∷◌,
  if◌then◌else◌, ltb, leb, is_some,
}
use market_brain.Prelude.Lists.{length}
use market_brain.Number.{Double, ◌⊕◌, ◌⊖◌, ◌⊗◌, ◌⊘◌, ◌<?◌, ◌≤?◌, zero_f, max_f, abs_f}
use market_brain.Domain.{LiquidityProfile, MarketSnapshot}

module _ {F : Type 0} ⦃num : Double F⦄ where
  -- `max(high - low, abs(high - reference), abs(low - reference))`
  abbrev pub true_range : F → F → F → F
  true_range high low reference =
      max_f (max_f (high ⊖ low) (abs_f (high ⊖ reference))) (abs_f (low ⊖ reference))

  abbrev pub is_bad_row : F → F → F → Bool
  is_bad_row high low close = high ≤? zero_f || low ≤? zero_f || close ≤? zero_f || high <? low

  -- the loop over `rows[1:]`; `none` is its `return None`
  pub true_ranges : F → List (F × F × F) → Option (List F)
  true_ranges previous_close [] = some []
  true_ranges previous_close ((high, low, close) ∷ rows) =
      let rest = true_ranges close rows in
      if is_bad_row high low close then none else elim rest [
        | none ↦ none
        | some ranges ↦ some (true_range high low previous_close ∷ ranges)
      ]

  -- `sum(true_ranges[:period])` on the ranges themselves, and `true_ranges[period:]` beside it
  pub split_sum : ℕ → F → List F → F × List F
  split_sum ℕ.zero acc ranges = (acc, ranges)
  split_sum (ℕ.suc n) acc [] = (acc, [])
  split_sum (ℕ.suc n) acc (r ∷ ranges) = split_sum n (acc ⊕ r) ranges

  -- the smoothing loop
  pub smooth : ℕ → F → List F → F
  smooth period atr [] = atr
  smooth period atr (r ∷ ranges) =
      smooth period ((atr ⊗ num.of_int (period - 1) ⊕ r) ⊘ num.of_int period) ranges

  abbrev pub average : ℕ → List F → F
  average period ranges =
      let (total, rest) = split_sum period zero_f ranges in
      smooth period (total ⊘ num.of_int period) rest

  pub wilder_atr : ℕ → List (F × F × F) → Option F
  unfolding true_ranges split_sum smooth
  wilder_atr period [] = none
  wilder_atr period ((high, low, close) ∷ rows) =
      if leb period 0 || ltb (length rows + 1) (period + 1)
      then none
      else elim (true_ranges close rows) [
        | none ↦ none
        | some ranges ↦ if ltb (length ranges) period then none else some (average period ranges)
      ]

  -- `x is not None and x > 0`
  abbrev pub is_positive : Option F → Bool
  is_positive none = false
  is_positive (some x) = zero_f <? x

  -- the range travelled today
  unfoldable pub used_range : MarketSnapshot F → F → F
  used_range snapshot prior =
      let close_range = abs_f (snapshot.last ⊖ prior) in
      elim snapshot.high [
        | none ↦ close_range
        | some high ↦ elim snapshot.low [
          | none ↦ close_range
          | some low ↦
              if zero_f <? high && zero_f <? low && low ≤? high
              then true_range high low prior
              else close_range
        ]
      ]

  -- `remaining_atr`
  unfoldable pub remaining_atr : MarketSnapshot F → Option F → Option F
  unfolding used_range
  remaining_atr snapshot none = none
  remaining_atr snapshot (some atr) = elim snapshot.prior_close [
    | none ↦ none
    | some prior ↦
        if zero_f <? atr && zero_f <? prior && zero_f <? snapshot.last
        then some (max_f zero_f (atr ⊖ used_range snapshot prior))
        else none
  ]

  abbrev pub profile_atr : Option (LiquidityProfile F) → Option F
  profile_atr none = none
  profile_atr (some profile) = profile.atr14

  abbrev pub profile_atr_pct : Option (LiquidityProfile F) → Option F
  profile_atr_pct none = none
  profile_atr_pct (some profile) = profile.atr14_pct

  -- `x / snapshot.last * 100.0`
  abbrev pub percent_of_last : MarketSnapshot F → Option F → Option F
  percent_of_last snapshot none = none
  percent_of_last snapshot (some x) = some (x ⊘ snapshot.last ⊗ num.lit 100 0)

  abbrev pub atr_pct : MarketSnapshot F → Option (LiquidityProfile F) → Option F
  atr_pct snapshot profile =
      if is_some (profile_atr profile) && zero_f <? snapshot.last
      then percent_of_last snapshot (profile_atr profile)
      else profile_atr_pct profile

  unfoldable pub apply_volatility_context :
      MarketSnapshot F → Option (LiquidityProfile F) → MarketSnapshot F
  unfolding remaining_atr
  apply_volatility_context snapshot profile =
      let remaining = remaining_atr snapshot (profile_atr profile) in
      record snapshot {
        atr14 = profile_atr profile;
        atr14_pct = atr_pct snapshot profile;
        remaining_atr = remaining;
        remaining_atr_pct = percent_of_last snapshot remaining;
      }

  -- the tests behind `ATR_MISSING`
  abbrev pub atr_level_reason : MarketSnapshot F → F → F → F → Option String
  atr_level_reason snapshot min_atr_pct atr pct =
      if atr ≤? zero_f || pct <? min_atr_pct
      then some "ATR_TOO_LOW"
      else elim snapshot.remaining_atr [
        | none ↦ some "ATR_REMAINING_MISSING"
        | some remaining ↦ if remaining ≤? zero_f then some "ATR_EXHAUSTED" else none
      ]

  unfoldable pub volatility_gate_reason : MarketSnapshot F → F → Option String
  volatility_gate_reason snapshot min_atr_pct = elim snapshot.atr14 [
    | none ↦ some "ATR_MISSING"
    | some atr ↦ elim snapshot.atr14_pct [
      | none ↦ some "ATR_MISSING"
      | some pct ↦ atr_level_reason snapshot min_atr_pct atr pct
    ]
  ]

  unfoldable pub target_atr_budget_reason : MarketSnapshot F → F → F → Option String
  target_atr_budget_reason snapshot target multiplier = elim snapshot.remaining_atr [
    | none ↦ some "ATR_REMAINING_MISSING"
    | some remaining ↦
        if remaining ⊗ multiplier <? max_f zero_f (target ⊖ snapshot.last)
        then some "TARGET_EXCEEDS_ATR_BUDGET"
        else none
  ]
