-- ===== src/Engines/Intraday/Confirmed.antt =====
-- The retest of `update_intraday_structure` in engines/intraday.py.
use market_brain.Prelude.{
  ltb, refl, Bool, ℕ, ◌≡◌, ◌⊎◌, inl, inr, ◌+◌, ◌*◌, ◌≤◌, true, false, Option, none, some, arith,
  Option-cases, Bool-cases,
}
use market_brain.Prelude.Result.{ok}
use market_brain.Number.{Double, ◌⊖◌, ◌⊗◌, ◌<?◌, ◌≤?◌, zero_f, ◌≺◌}
use market_brain.Domain.{Instant, minute}
use market_brain.Domain.Intraday.{
  IntradayStructureState, IntradayStructure, breakout_seen, retest_valid,
}
use market_brain.Settings.{Settings}
use market_brain.Engines.Intraday.Bars.{
  Zone, Bar, apply_vwap, near_vwap, near_orh, structure_invalidation_reason, minute_index,
}
use market_brain.Engines.Intraday.Update.{
  Prices, check_bar, noted, take_opening, take_trading, take_bar, on_state, on_range,
  follow_breakout, judge_retest, update_intraday_structure, tolerance_of,
}
use market_brain.Engines.Intraday.Retest.{update_intraday_structure-IsTaken}

abbrev is_breakout : IntradayStructureState → Bool
is_breakout breakout_seen = true
is_breakout _ = false

abbrev is_retest : IntradayStructureState → Bool
is_retest retest_valid = true
is_retest _ = false

module _ {F : Type 0} ⦃num : Double F⦄ where
  -- what makes a retest valid, of the structure with the bar noted
  pub record IsRetest (cfg : Settings F) (s : IntradayStructure F) (bar : Prices F)
      (t : IntradayStructure F) : Type 0 where
    pub at : Instant
    pub orh : F
    pub orl : F
    pub broke_out : s.state ≡ breakout_seen
    pub has_breakout : s.breakout_at ≡ some at
    pub has_high : s.opening_range_high ≡ some orh
    pub has_low : s.opening_range_low ≡ some orl
    pub in_window : bar.stamp ≤ at + cfg.retest_window_minutes * minute
    pub range_positive : (orh ⊖ orl ≤? zero_f) ≡ false
    pub low_held : (bar.low <? orh ⊖ cfg.retest_invalidation_buffer_r ⊗ (orh ⊖ orl)) ≡ false
    pub closed_above : orh ≺ bar.close
    pub touched :
        (near_orh bar.low (tolerance_of cfg) orh ≡ some true)
        ⊎ (near_vwap bar.low (tolerance_of cfg) s.running_vwap ≡ true)
    pub stamped : t.retest_at ≡ some bar.stamp

  module _ (cfg : Settings F) (s : IntradayStructure F) (bar : Prices F) where
    -- the part of it that follows the test of the buffer
    abbrev IsTouch : F → IntradayStructure F → Type 0
    IsTouch orh t =
        (at : Instant) × (s.breakout_at ≡ some at)
        × (bar.stamp ≤ at + cfg.retest_window_minutes * minute)
        × (orh ≺ bar.close)
        × ((near_orh bar.low (tolerance_of cfg) orh ≡ some true)
            ⊎ (near_vwap bar.low (tolerance_of cfg) s.running_vwap ≡ true))
        × (t.retest_at ≡ some bar.stamp)

    follow_breakout-IsTouch :
        (orh : F) (breakout_at : Option Instant) {t : IntradayStructure F}
        → s.state ≡ breakout_seen
        → s.breakout_at ≡ breakout_at
        → follow_breakout cfg s bar orh breakout_at ≡ ok t
        → t.state ≡ retest_valid
        → IsTouch orh t
    unfolding follow_breakout judge_retest
    follow_breakout-IsTouch orh none b a e v = absurd (ground arith)
    follow_breakout-IsTouch orh (some at) b a e v =
        elim (Option-cases (near_orh bar.low (tolerance_of cfg) orh)) [
          | inl no_ratio ↦ absurd (ground arith)
          | inr (near, n) ↦ elim (Bool-cases near) [
            | inl yes_near ↦ (at, a, ground arith, ground arith, inl (ground arith), ground arith)
            | inr no_near ↦ (at, a, ground arith, ground arith, inr (ground arith), ground arith)
          ]
        ]

    on_range-IsRetest :
        (previous : Option F) (orh orl : F) {t : IntradayStructure F}
        → s.opening_range_high ≡ some orh
        → s.opening_range_low ≡ some orl
        → on_range cfg s bar previous orh orl ≡ ok t
        → t.state ≡ retest_valid
        → (s.state ≡ retest_valid) ⊎ IsRetest cfg s bar t
    unfolding on_range on_state structure_invalidation_reason
    on_range-IsRetest previous orh orl {t} h l e v = elim (Bool-cases (is_breakout s.state)) [
      | inr other ↦ inl (ground arith)
      | inl b ↦
          let broke : s.state ≡ breakout_seen = ground arith in
          let (at, a, w, c, n, st) =
            follow_breakout-IsTouch orh s.breakout_at {t = t} broke refl (ground arith) v in
          inr (record {
            at = at;
            orh = orh;
            orl = orl;
            broke_out = broke;
            has_breakout = a;
            has_high = h;
            has_low = l;
            in_window = w;
            range_positive = ground arith;
            low_held = ground arith;
            closed_above = c;
            touched = n;
            stamped = st;
          })
    ]

    take_trading-IsRetest :
        (previous : Option F) {t : IntradayStructure F}
        → take_trading cfg s bar previous ≡ ok t
        → t.state ≡ retest_valid
        → (s.state ≡ retest_valid) ⊎ IsRetest cfg s bar t
    unfolding take_trading
    take_trading-IsRetest previous {t} e v = elim (Option-cases s.opening_range_high) [
      | inl no_high ↦ absurd (ground arith)
      | inr (orh, e1) ↦ elim (Option-cases s.opening_range_low) [
        | inl no_low ↦ absurd (ground arith)
        | inr (orl, e2) ↦ elim (Bool-cases (is_retest s.state)) [
          | inl already ↦ inl (ground arith)
          | inr other ↦ on_range-IsRetest previous orh orl e1 e2 (ground arith) v
        ]
      ]
    ]

  take_opening-retest_valid :
      (cfg : Settings F) (s : IntradayStructure F) (index : ℕ) (bar : Prices F)
      → (take_opening cfg s index bar).state ≡ retest_valid
      → s.state ≡ retest_valid
  unfolding take_opening
  take_opening-retest_valid cfg s index bar v = ground arith

  noted-retest_valid :
      (now : Instant) (raw : Bar F) (bar : Prices F) (s : IntradayStructure F)
      → (noted now raw bar s).state ≡ retest_valid
      → s.state ≡ retest_valid
  unfolding apply_vwap
  noted-retest_valid now raw bar s v = ground arith

  take_bar-IsRetest :
      (cfg : Settings F) (zone : Zone) (now : Instant) (raw : Bar F) (bar : Prices F)
      (s : IntradayStructure F) {t : IntradayStructure F}
      → take_bar cfg zone now raw bar s ≡ ok t
      → t.state ≡ retest_valid
      → (s.state ≡ retest_valid) ⊎ IsRetest cfg (noted now raw bar s) bar t
  unfolding take_bar
  take_bar-IsRetest cfg zone now raw bar s {t} e v =
      let index = minute_index (zone.time_of_day bar.stamp) in
      let s' = noted now raw bar s in
      elim (Bool-cases (ltb index cfg.intraday_opening_range_minutes)) [
        | inl opening ↦
            let is : take_opening cfg s' index bar ≡ t = ground arith in
            inl (
              noted-retest_valid now raw bar s
                (take_opening-retest_valid cfg s' index bar (rw is v)))
        | inr trading ↦
            elim (take_trading-IsRetest cfg s' bar s.last_close {t = t} (ground arith) v) [
              | inl already ↦ inl (noted-retest_valid now raw bar s already)
              | inr valid ↦ inr valid
            ]
      ]

  -- A structure becomes RETEST_VALID by a bar only from BREAKOUT_SEEN, within the window behind the
  -- breakout, over a positive range, where the low holds the buffer and touches the top of the range
  -- or the VWAP and the close is above the top.
  pub update_intraday_structure-IsRetest :
      (cfg : Settings F) (zone : Zone) (now : Instant) (raw : Bar F) (s : IntradayStructure F)
      {t : IntradayStructure F}
      → update_intraday_structure cfg zone now raw s ≡ ok t
      → t.state ≡ retest_valid
      → (s.state ≡ retest_valid)
        ⊎ ((bar : Prices F) × (check_bar raw ≡ ok bar) × IsRetest cfg (noted now raw bar s) bar t)
  update_intraday_structure-IsRetest cfg zone now raw s {t} e v =
      elim (update_intraday_structure-IsTaken cfg zone now raw s e) [
        | inl same ↦ inl (ground arith)
        | inr (bar, (checked, new, inside, taken)) ↦
            elim (take_bar-IsRetest cfg zone now raw bar s {t = t} taken v) [
              | inl already ↦ inl already
              | inr valid ↦ inr (bar, checked, valid)
            ]
      ]
