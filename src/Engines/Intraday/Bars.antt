-- ===== src/Engines/Intraday/Bars.antt =====
-- engines/intraday.py: the clock of New York, the bars, and what `compute_structure` and
-- `update_intraday_structure` share.
use market_brain.Prelude.{
  ℕ, ◌-◌, ◌*◌, ◌/◌, String, Bool, ◌||◌, ◌&&◌, Option, none, some, [], ◌∷◌, if◌then◌else◌, ltb, leb,
}
use market_brain.Number.{Double, ◌⊕◌, ◌⊖◌, ◌⊗◌, ◌⊘◌, ◌<?◌, ◌≤?◌, zero_f, abs_f, quotient}
use market_brain.Domain.{Instant, minute}
use market_brain.Domain.Intraday.{
  IntradayStructureState, IntradayStructure, building_or, armed, breakout_seen, retest_valid,
  invalid,
}

-- What `zoneinfo` says of `America/New_York`.
pub record Zone : Type 0 where
  -- `value.astimezone(EASTERN).date().isoformat()`
  pub date_of : Instant → String
  -- the microseconds on the local clock since midnight
  pub time_of_day : Instant → ℕ
  -- 9:30 and 16:00 of a date, in UTC
  pub opens_at : String → Instant
  pub closes_at : String → Instant

-- A bar: each key is read by its short or its long name, and a number is missing where `_float`
-- refuses it.
pub record Bar (F : Type 0) : Type 0 where
  -- `none` where the key is missing, `some none` where it does not parse
  pub stamp : Option (Option Instant)
  pub high : Option F
  pub low : Option F
  pub close : Option F
  pub volume : Option F
  pub vwap : Option F
  -- the source in upper case
  pub source : String
  -- the canonical JSON of the bar
  pub canonical : String

abbrev pub session_date_for : Zone → Instant → String
session_date_for zone value = zone.date_of value

-- `time(9, 30)` and `time(16, 0)`
abbrev pub open_time : ℕ
open_time = 34_200_000_000

abbrev pub close_time : ℕ
close_time = 57_600_000_000

-- `local < session_start or local >= session_end`
abbrev pub is_outside : ℕ → Bool
is_outside local_time = ltb local_time open_time || leb close_time local_time

abbrev pub minute_index : ℕ → ℕ
minute_index local_time = (local_time - open_time) / minute

-- `stamp.replace(second=0, microsecond=0)`
abbrev pub minute_of : Instant → Instant
minute_of stamp = stamp / minute * minute

module _ {F : Type 0} ⦃num : Double F⦄ where
  abbrev pub with_vwap : F → F → IntradayStructure F → IntradayStructure F
  with_vwap volume vwap s =
      let total = s.cumulative_volume ⊕ volume in
      let notional = s.cumulative_vwap_notional ⊕ vwap ⊗ volume in
      record s {
        cumulative_volume = total;
        cumulative_vwap_notional = notional;
        running_vwap = some (notional ⊘ total);
      }

  -- `_apply_vwap` for one bar
  unfoldable pub apply_vwap : Option F → Option F → IntradayStructure F → IntradayStructure F
  apply_vwap none vwap s = s
  apply_vwap (some volume) none s = s
  apply_vwap (some volume) (some vwap) s =
      if zero_f <? volume && zero_f <? vwap then with_vwap volume vwap s else s

  abbrev pub invalidated : String → IntradayStructure F → IntradayStructure F
  invalidated reason s = record s { state = invalid; reasons = reason ∷ [] }

  abbrev pub reason_below : F → F → String → Option String
  reason_below low bound reason = if low <? bound then some reason else none

  unfoldable pub structure_invalidation_reason :
      IntradayStructureState → F → F → F → F → Option String
  structure_invalidation_reason armed low orh orl buffer =
      reason_below low (orl ⊖ buffer ⊗ (orh ⊖ orl)) "RANGE_BREAKDOWN"
  structure_invalidation_reason breakout_seen low orh orl buffer =
      reason_below low (orh ⊖ buffer ⊗ (orh ⊖ orl)) "RETEST_INVALIDATED_BELOW_ORH_BUFFER"
  structure_invalidation_reason retest_valid low orh orl buffer =
      reason_below low (orh ⊖ buffer ⊗ (orh ⊖ orl)) "RETEST_INVALIDATED_BELOW_ORH_BUFFER"
  structure_invalidation_reason building_or low orh orl buffer = none
  structure_invalidation_reason invalid low orh orl buffer = none

  -- `near_vwap`: no division where the VWAP is missing or not positive
  abbrev pub near_vwap : F → F → Option F → Bool
  near_vwap low tolerance none = Bool.false
  near_vwap low tolerance (some vwap) = zero_f <? vwap && abs_f (low ⊖ vwap) ⊘ vwap ≤? tolerance

  -- `abs(low - orh) / orh <= tolerance`, and `none` for its ZeroDivisionError
  abbrev pub near_orh : F → F → F → Option Bool
  near_orh low tolerance orh = elim (quotient (abs_f (low ⊖ orh)) orh) [
    | none ↦ none
    | some ratio ↦ some (ratio ≤? tolerance)
  ]

  -- `previous_close is not None and previous_close <= orh and close > orh`
  abbrev pub crosses : Option F → F → F → Bool
  crosses none close orh = Bool.false
  crosses (some previous) close orh = previous ≤? orh && orh <? close
