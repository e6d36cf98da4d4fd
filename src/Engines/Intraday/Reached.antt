-- ===== src/Engines/Intraday/Reached.antt =====
-- The structures that a sequence of bars makes of a new one, by `update_intraday_structure` of
-- engines/intraday.py.
use market_brain.Prelude.{
  ℕ, ◌≡◌, inl, inr, ◌≤◌, ◌<◌, String, Bool, true, ◌&&◌, Option, some, none, arith, is_some, ltb,
  ◌==◌, Option-cases, Bool-cases,
}
use market_brain.Prelude.Result.{ok}
use market_brain.Number.{Double}
use market_brain.Domain.{Instant}
use market_brain.Domain.Intraday.{
  IntradayStructureState, IntradayStructure, building_or, armed, breakout_seen, retest_valid,
  invalid,
}
use market_brain.Settings.{Settings}
use market_brain.Engines.Intraday.Bars.{
  Zone, Bar, apply_vwap, minute_index, structure_invalidation_reason,
}
use market_brain.Engines.Intraday.Update.{
  Prices, noted, take_opening, take_trading, take_bar, on_state, on_range, follow_breakout,
  judge_retest, update_intraday_structure, new_intraday_structure,
}
use market_brain.Engines.Intraday.Retest.{update_intraday_structure-IsTaken}

module _ {F : Type 0} ⦃num : Double F⦄ where
  -- the opening range is complete
  abbrev pub is_ranged : Settings F → IntradayStructure F → Bool
  is_ranged cfg s =
      s.opening_bars_seen == cfg.intraday_opening_range_minutes
      && (is_some s.opening_range_high && is_some s.opening_range_low)

  -- what a state says of the other fields
  abbrev pub is_backed : Settings F → IntradayStructure F → IntradayStructureState → Bool
  is_backed cfg s building_or = true
  is_backed cfg s invalid = true
  is_backed cfg s armed = is_ranged cfg s
  is_backed cfg s breakout_seen = is_ranged cfg s && is_some s.breakout_at
  is_backed cfg s retest_valid = is_ranged cfg s && (is_some s.breakout_at && is_some s.retest_at)

  pub record IsSound (cfg : Settings F) (s : IntradayStructure F) : Type 0 where
    pub seen_within : s.opening_bars_seen ≤ cfg.intraday_opening_range_minutes
    pub backed : is_backed cfg s s.state ≡ true

  noted-IsSound :
      (cfg : Settings F) (now : Instant) (raw : Bar F) (bar : Prices F) (s : IntradayStructure F)
      → IsSound cfg s
      → IsSound cfg (noted now raw bar s)
  unfolding apply_vwap
  noted-IsSound cfg now raw bar s h = ground arith

  take_opening-IsSound :
      (cfg : Settings F) (s : IntradayStructure F) (index : ℕ) (bar : Prices F)
      → index < cfg.intraday_opening_range_minutes
      → IsSound cfg s
      → IsSound cfg (take_opening cfg s index bar)
  unfolding take_opening
  take_opening-IsSound cfg s index bar lt h = ground arith

  module _ (cfg : Settings F) (s : IntradayStructure F) (bar : Prices F) where
    follow_breakout-IsSound :
        (orh : F) (breakout_at : Option Instant) {t : IntradayStructure F}
        → s.state ≡ breakout_seen
        → s.breakout_at ≡ breakout_at
        → follow_breakout cfg s bar orh breakout_at ≡ ok t
        → IsSound cfg s
        → IsSound cfg t
    unfolding follow_breakout judge_retest
    follow_breakout-IsSound orh none b a e h = ground arith
    follow_breakout-IsSound orh (some at) b a e h = ground arith

    on_range-IsSound :
        (previous : Option F) (orh orl : F) {t : IntradayStructure F}
        → on_range cfg s bar previous orh orl ≡ ok t
        → IsSound cfg s
        → IsSound cfg t
    unfolding on_range on_state structure_invalidation_reason
    on_range-IsSound previous orh orl {t} e h =
        ground (arith, follow_breakout-IsSound orh s.breakout_at {t = t})

    take_trading-IsSound :
        (previous : Option F) {t : IntradayStructure F}
        → take_trading cfg s bar previous ≡ ok t
        → IsSound cfg s
        → IsSound cfg t
    unfolding take_trading
    take_trading-IsSound previous {t} e h = elim (Option-cases s.opening_range_high) [
      | inl no_high ↦ ground arith
      | inr (orh, e1) ↦ elim (Option-cases s.opening_range_low) [
        | inl no_low ↦ ground arith
        | inr (orl, e2) ↦ ground (arith, on_range-IsSound previous orh orl {t = t})
      ]
    ]

  take_bar-IsSound :
      (cfg : Settings F) (zone : Zone) (now : Instant) (raw : Bar F) (bar : Prices F)
      (s : IntradayStructure F) {t : IntradayStructure F}
      → take_bar cfg zone now raw bar s ≡ ok t
      → IsSound cfg s
      → IsSound cfg t
  unfolding take_bar
  take_bar-IsSound cfg zone now raw bar s {t} e h =
      let index = minute_index (zone.time_of_day bar.stamp) in
      let s' = noted now raw bar s in
      let sound = noted-IsSound cfg now raw bar s h in
      elim (Bool-cases (ltb index cfg.intraday_opening_range_minutes)) [
        | inl opening ↦
            let is : take_opening cfg s' index bar ≡ t = ground arith in
            rw (← is) (take_opening-IsSound cfg s' index bar (ground arith) sound)
        | inr trading ↦ take_trading-IsSound cfg s' bar s.last_close (ground arith) sound
      ]

  -- A new structure, and what one more bar makes of a structure.
  pub data Reached (cfg : Settings F) (zone : Zone) : IntradayStructure F → Type 0 where
    opened :
        (upper : String → String) (symbol : String) (now : Instant)
        → Reached cfg zone (new_intraday_structure upper zone symbol now)
    fed :
        {s t : IntradayStructure F} (now : Instant) (raw : Bar F)
        → Reached cfg zone s
        → update_intraday_structure cfg zone now raw s ≡ ok t
        → Reached cfg zone t

  -- However the bars come, a structure that they reach has seen no more opening bars than the
  -- opening range has minutes, exactly as many of them once it is armed, with both bounds known, and
  -- it has the time of the breakout and of the retest that its state speaks of.
  pub Reached-IsSound :
      (cfg : Settings F) (zone : Zone) {s : IntradayStructure F}
      → Reached cfg zone s
      → IsSound cfg s
  unfolding new_intraday_structure
  Reached-IsSound cfg zone (opened upper symbol now) = ground arith
  Reached-IsSound cfg zone (fed {s} {t} now raw before e) =
      let sound = Reached-IsSound cfg zone before in
      elim (update_intraday_structure-IsTaken cfg zone now raw s e) [
        | inl same ↦ rw same sound
        | inr (bar, (checked, new, inside, taken)) ↦
            take_bar-IsSound cfg zone now raw bar s taken sound
      ]
