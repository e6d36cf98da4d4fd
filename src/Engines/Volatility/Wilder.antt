-- ===== src/Engines/Volatility/Wilder.antt =====
-- The loops of `wilder_atr` in engines/volatility.py.
use market_brain.Prelude.{
  ℕ, ◌≡◌, refl, Bool, true, false, not, ◌&&◌, Option, none, some, List, [], ◌∷◌, arith, leb, ltb,
  is_some,
}
use market_brain.Prelude.Lists.{length}
use market_brain.Number.{Double}
use market_brain.Engines.Volatility.{is_bad_row, true_ranges, wilder_atr}

module _ {F : Type 0} ⦃num : Double F⦄ where
  -- no row has a price that is not positive, or a high below its low
  abbrev pub all_good : List (F × F × F) → Bool
  all_good [] = true
  all_good ((high, low, close) ∷ rows) = not (is_bad_row high low close) && all_good rows

  -- The loop gives one range for each row, or `none` where a row is bad.
  abbrev RangesOf : List (F × F × F) → Option (List F) → Type 0
  RangesOf rows none = all_good rows ≡ false
  RangesOf rows (some ranges) = (all_good rows ≡ true) × (length ranges ≡ length rows)

  true_ranges-RangesOf :
      (previous : F) (rows : List (F × F × F)) → RangesOf rows (true_ranges previous rows)
  unfolding true_ranges
  true_ranges-RangesOf previous [] = (refl, refl)
  true_ranges-RangesOf previous ((high, low, close) ∷ rows) =
      ground (arith, true_ranges-RangesOf close rows)

  -- An average is returned exactly where the period is positive, as many rows as the period stand
  -- behind the first, and none of those is bad. The second test of the length never fails.
  pub wilder_atr-is_some :
      (period : ℕ) (first : F × F × F) (rows : List (F × F × F))
      → is_some (wilder_atr period (first ∷ rows))
        ≡ (ltb 0 period && (leb period (length rows) && all_good rows))
  unfolding wilder_atr
  wilder_atr-is_some period (high, low, close) rows =
      ground (arith, true_ranges-RangesOf close rows)
