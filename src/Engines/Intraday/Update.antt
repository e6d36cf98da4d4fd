-- ===== src/Engines/Intraday/Update.antt =====
-- `update_intraday_structure` of engines/intraday.py: one bar at a time. The structure that is
-- returned is the one the source changes in place; where it raises there is none.
use market_brain.Prelude.{
  ℕ, ◌+◌, ◌*◌, String, Bool, true, false, not, ◌||◌, ◌&&◌, Option, none, some, [], ◌∷◌,
  if◌then◌else◌, ltb, leb, ◌==◌, str_eq,
}
use market_brain.Prelude.Result.{Result, ok, raise_if, or_raise, ◌>>=◌, ◌>>◌}
use market_brain.Number.{Double, ◌⊖◌, ◌⊘◌, ◌<?◌, ◌≤?◌, zero_f, max_f, min_f}
use market_brain.Domain.{Instant, minute}
use market_brain.Domain.Intraday.{
  IntradayStructureState, IntradayStructure, building_or, armed, breakout_seen, retest_valid,
  invalid, fresh_structure,
}
use market_brain.Settings.{Settings}
use market_brain.Engines.Intraday.Bars.{
  Zone, Bar, apply_vwap, invalidated, structure_invalidation_reason, near_vwap, near_orh, crosses,
  is_outside, minute_index, session_date_for,
}

-- a bar that is complete
pub record Prices (F : Type 0) : Type 0 where
  pub stamp : Instant
  pub high : F
  pub low : F
  pub close : F

-- `structure.last_bar_at is not None and stamp <= structure.last_bar_at`
abbrev pub is_old : Option Instant → Instant → Bool
is_old none stamp = false
is_old (some last) stamp = leb stamp last

abbrev pub is_invalid : IntradayStructureState → Bool
is_invalid invalid = true
is_invalid _ = false

module _ {F : Type 0} ⦃num : Double F⦄ where
  unfoldable pub check_bar : Bar F → Result (Prices F)
  check_bar bar = do
    parsed ← or_raise bar.stamp "INTRADAY_BAR_INCOMPLETE"
    high ← or_raise bar.high "INTRADAY_BAR_INCOMPLETE"
    low ← or_raise bar.low "INTRADAY_BAR_INCOMPLETE"
    close ← or_raise bar.close "INTRADAY_BAR_INCOMPLETE"
    stamp ← or_raise parsed "INTRADAY_BAR_TIMESTAMP_INVALID"
    raise_if (high <? low || close ≤? zero_f) "INTRADAY_BAR_INVALID"
    ok (record { stamp = stamp; high = high; low = low; close = close })

  abbrev pub widen : (F → F → F) → Option F → F → F
  widen f none x = x
  widen f (some y) x = f y x

  -- a bar of the opening range
  unfoldable pub take_opening :
      Settings F → IntradayStructure F → ℕ → Prices F → IntradayStructure F
  take_opening cfg s index bar =
      if not (index == s.opening_bars_seen)
      then invalidated "OPENING_RANGE_INCOMPLETE" s
      else let seen = s.opening_bars_seen + 1 in
        let done = seen == cfg.intraday_opening_range_minutes in
        record s {
          opening_range_high = some (widen max_f s.opening_range_high bar.high);
          opening_range_low = some (widen min_f s.opening_range_low bar.low);
          opening_bars_seen = seen;
          state = if done then armed else s.state;
          reasons = if done then "OPENING_RANGE_ESTABLISHED" ∷ [] else s.reasons;
        }

  abbrev pub rearmed : String → IntradayStructure F → IntradayStructure F
  rearmed reason s = record s { state = armed; breakout_at = none; reasons = reason ∷ [] }

  abbrev pub retested : Instant → IntradayStructure F → IntradayStructure F
  retested stamp s = record s {
    state = retest_valid;
    retest_at = some stamp;
    reasons = "SERVER_RETEST_VALID" ∷ [];
  }

  abbrev pub broken_out : Instant → IntradayStructure F → IntradayStructure F
  broken_out stamp s = record s {
    state = breakout_seen;
    breakout_at = some stamp;
    reasons = "ORH_BREAKOUT_CONFIRMED" ∷ [];
  }

  abbrev pub waiting : IntradayStructure F → IntradayStructure F
  waiting s = record s { reasons = "RETEST_WINDOW_OPEN" ∷ [] }

  abbrev pub tolerance_of : Settings F → F
  tolerance_of cfg = cfg.retest_touch_tolerance_pct ⊘ num.lit 1000 1

  -- behind the window: the touch and the close
  unfoldable pub judge_retest : IntradayStructure F → Prices F → F → Bool → IntradayStructure F
  judge_retest s bar orh near =
      if near && orh <? bar.close
      then retested bar.stamp s
      else if bar.close ≤? orh
      then rearmed "RETEST_CLOSE_BELOW_ORH" s
      else waiting s

  abbrev pub is_expired_window : Settings F → Instant → Instant → Bool
  is_expired_window cfg at stamp = ltb (at + cfg.retest_window_minutes * minute) stamp

  -- the state BREAKOUT_SEEN
  unfoldable pub follow_breakout :
      Settings F
      → IntradayStructure F
      → Prices F
      → F
      → Option Instant
      → Result (IntradayStructure F)
  unfolding judge_retest
  follow_breakout cfg s bar orh none =
      ok (record s { state = armed; reasons = "RETEST_BREAKOUT_TIMESTAMP_MISSING" ∷ [] })
  follow_breakout cfg s bar orh (some at) =
      if is_expired_window cfg at bar.stamp then ok (rearmed "RETEST_WINDOW_EXPIRED" s) else do
        near ← or_raise (near_orh bar.low (tolerance_of cfg) orh) "ZeroDivisionError"
        ok (judge_retest s bar orh (near || near_vwap bar.low (tolerance_of cfg) s.running_vwap))

  unfoldable pub on_state :
      Settings F
      → IntradayStructure F
      → Prices F
      → F
      → Option F
      → IntradayStructureState
      → Result (IntradayStructure F)
  unfolding follow_breakout
  on_state cfg s bar orh previous retest_valid = ok s
  on_state cfg s bar orh previous breakout_seen = follow_breakout cfg s bar orh s.breakout_at
  on_state cfg s bar orh previous armed =
      ok (if crosses previous bar.close orh then broken_out bar.stamp s else s)
  on_state cfg s bar orh previous building_or = ok s
  on_state cfg s bar orh previous invalid = ok s

  unfoldable pub on_range :
      Settings F → IntradayStructure F → Prices F → Option F → F → F → Result (IntradayStructure F)
  unfolding on_state structure_invalidation_reason
  on_range cfg s bar previous orh orl =
      if orh ⊖ orl ≤? zero_f
      then ok (invalidated "OPENING_RANGE_INVALID" s)
      else elim (structure_invalidation_reason s.state bar.low orh orl
          cfg.retest_invalidation_buffer_r) [
            | some reason ↦ ok (invalidated reason s)
            | none ↦ on_state cfg s bar orh previous s.state
          ]

  abbrev pub with_range :
      Settings F
      → IntradayStructure F
      → Prices F
      → Option F
      → Option F
      → Option F
      → Result (IntradayStructure F)
  with_range cfg s bar previous none orl = ok (invalidated "OPENING_RANGE_MISSING" s)
  with_range cfg s bar previous (some orh) none = ok (invalidated "OPENING_RANGE_MISSING" s)
  with_range cfg s bar previous (some orh) (some orl) = on_range cfg s bar previous orh orl

  -- a bar behind the opening range
  unfoldable pub take_trading :
      Settings F → IntradayStructure F → Prices F → Option F → Result (IntradayStructure F)
  unfolding on_range
  take_trading cfg s bar previous =
      if is_invalid s.state
      then ok s
      else if ltb s.opening_bars_seen cfg.intraday_opening_range_minutes
      then ok (invalidated "OPENING_RANGE_INCOMPLETE" s)
      else with_range cfg s bar previous s.opening_range_high s.opening_range_low

  -- what every bar that is taken writes
  abbrev pub noted : Instant → Bar F → Prices F → IntradayStructure F → IntradayStructure F
  noted now raw bar s = record (apply_vwap raw.volume raw.vwap s) {
    last_bar_at = some bar.stamp;
    last_close = some bar.close;
    updated_at = now;
  }

  unfoldable pub take_bar :
      Settings F
      → Zone
      → Instant
      → Bar F
      → Prices F
      → IntradayStructure F
      → Result (IntradayStructure F)
  unfolding take_opening take_trading apply_vwap
  take_bar cfg zone now raw bar s =
      let index = minute_index (zone.time_of_day bar.stamp) in
      if ltb index cfg.intraday_opening_range_minutes
      then ok (take_opening cfg (noted now raw bar s) index bar)
      else take_trading cfg (noted now raw bar s) bar s.last_close

  unfoldable pub update_intraday_structure :
      Settings F → Zone → Instant → Bar F → IntradayStructure F → Result (IntradayStructure F)
  unfolding check_bar take_bar
  update_intraday_structure cfg zone now raw s = do
    bar ← check_bar raw
    raise_if (not (str_eq (session_date_for zone bar.stamp) s.session_date))
        "INTRADAY_BAR_SESSION_MISMATCH"
    if is_old s.last_bar_at bar.stamp || is_outside (zone.time_of_day bar.stamp)
        then ok s
        else take_bar cfg zone now raw bar s

  -- `new_intraday_structure`; the function is `str.upper`
  unfoldable pub new_intraday_structure :
      (String → String) → Zone → String → Instant → IntradayStructure F
  new_intraday_structure upper zone symbol now =
      fresh_structure (upper symbol) (session_date_for zone now) now
