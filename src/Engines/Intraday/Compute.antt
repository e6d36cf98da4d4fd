-- ===== src/Engines/Intraday/Compute.antt =====
-- `compute_structure` of engines/intraday.py: a whole session again from its bars.
use market_brain.Prelude.{
  ℕ, zero, suc, ◌+◌, ◌*◌, String, Bool, true, false, not, ◌||◌, ◌&&◌, Option, none, some, List, [],
  ◌∷◌, if◌then◌else◌, ltb, leb, ◌==◌, str_eq, is_some,
}
use market_brain.Prelude.Lists.{length, select, first, any}
use market_brain.Prelude.Result.{Result, ok, err, or_raise, ◌>>=◌}
use market_brain.Number.{Double, ◌⊖◌, ◌≤?◌, zero_f, max_f, min_f}
use market_brain.Domain.{Instant, minute}
use market_brain.Domain.Intraday.{
  IntradayStructureState, IntradayStructure, building_or, armed, breakout_seen, retest_valid,
  invalid, fresh_structure,
}
use market_brain.Settings.{Settings}
use market_brain.Engines.Intraday.Bars.{
  Zone, Bar, apply_vwap, invalidated, structure_invalidation_reason, near_vwap, near_orh, crosses,
  session_date_for,
}
use market_brain.Engines.Intraday.Update.{
  Prices, rearmed, retested, broken_out, waiting, tolerance_of, is_expired_window,
}
use market_brain.Engines.Intraday.Merge.{Row, merged_bars}

-- `opening_stamps`
unfoldable pub slots : ℕ → Instant → List Instant
slots zero at = []
slots (suc n) at = at ∷ slots n (at + minute)

abbrev pub is_confirmed : Option Instant → Instant → Bool
is_confirmed none at = false
is_confirmed (some through) at = leb (at + minute) through

abbrev pub is_none_left : List Instant → Bool
is_none_left [] = true
is_none_left (_ ∷ _) = false

module _ {F : Type 0} ⦃num : Double F⦄ where
  -- the rows of the session. Their minutes ascend, so that they are `by_minute` in its order.
  unfoldable pub session_rows : Zone → String → List (Bar F) → List (Row F)
  session_rows zone session_date bars =
      select
        (λ (row : Row F).
          str_eq (session_date_for zone row.stamp) session_date
          && (leb (zone.opens_at session_date) row.stamp
              && ltb row.stamp (zone.closes_at session_date)))
        (merged_bars bars)

  abbrev pub row_at : List (Row F) → Instant → Option (Row F)
  row_at rows at = first (λ (row : Row F). row.minute == at) rows

  -- `[by_minute[stamp] for stamp in opening_stamps if stamp in by_minute]`
  unfoldable pub opening_rows : List (Row F) → List Instant → List (Row F)
  opening_rows rows [] = []
  opening_rows rows (at ∷ stamps) =
      let rest = opening_rows rows stamps in
      elim (row_at rows at) [ none ↦ rest | some row ↦ row ∷ rest ]

  abbrev pub missing_stamps : List (Row F) → List Instant → List Instant
  missing_stamps rows stamps = select (λ at. not (is_some (row_at rows at))) stamps

  -- `[_required_float(bar, …) for bar in opening]`
  pub required : (Bar F → Option F) → List (Row F) → Result (List F)
  required read [] = ok []
  required read (row ∷ rows) = do
    x ← or_raise (read row.bar) "INTRADAY_BAR_INCOMPLETE"
    rest ← required read rows
    ok (x ∷ rest)

  -- `max(values)` and `min(values)`; `none` for no values
  pub best : (F → F → F) → List F → Option F
  best f [] = none
  best f (x ∷ []) = some x
  best f (x ∷ y ∷ xs) = best f (f x y ∷ xs)

  unfoldable pub with_opening : IntradayStructure F → List (Row F) → Result (IntradayStructure F)
  unfolding required best
  with_opening s rows = do
    highs ← required (λ (bar : Bar F). bar.high) rows
    lows ← required (λ (bar : Bar F). bar.low) rows
    ok (record s {
      opening_bars_seen = length rows;
      opening_range_high = best max_f highs;
      opening_range_low = best min_f lows;
    })

  abbrev pub add_vwap : Bar F → IntradayStructure F → IntradayStructure F
  add_vwap bar s = apply_vwap bar.volume bar.vwap s

  -- `_apply_vwap`
  unfoldable pub add_vwaps : List (Row F) → IntradayStructure F → IntradayStructure F
  unfolding apply_vwap
  add_vwaps [] s = s
  add_vwaps (row ∷ rows) s = add_vwaps rows (add_vwap row.bar s)

  -- the last row, which has the greatest minute
  pub last_row : List (Row F) → Option (Row F)
  last_row [] = none
  last_row (row ∷ []) = some row
  last_row (row ∷ next ∷ rows) = last_row (next ∷ rows)

  -- the return with an opening range that is not complete
  unfoldable pub incomplete :
      List (Row F)
      → List Instant
      → Option Instant
      → IntradayStructure F
      → Result (IntradayStructure F)
  unfolding add_vwaps last_row
  incomplete rows missing confirmed s =
      let confirmed_empty = any (is_confirmed confirmed) missing in
      let marked = record (add_vwaps rows s) {
        state = if confirmed_empty then invalid else building_or;
        reasons =
            (if confirmed_empty
              then "OPENING_RANGE_CONFIRMED_EMPTY"
              else "OPENING_RANGE_WAITING_FOR_SIP")
            ∷ [];
      } in
      elim (last_row rows) [
        | none ↦ ok marked
        | some row ↦ do
          close ← or_raise row.bar.close "INTRADAY_BAR_INCOMPLETE"
          ok (record marked { last_bar_at = some row.minute; last_close = some close })
      ]

  -- the state BREAKOUT_SEEN: the window, the close, the touch
  unfoldable pub follow_seen :
      Settings F
      → IntradayStructure F
      → Prices F
      → F
      → Option Instant
      → Result (IntradayStructure F)
  follow_seen cfg s bar orh none = err "AssertionError"
  follow_seen cfg s bar orh (some at) =
      if is_expired_window cfg at bar.stamp
      then ok (rearmed "RETEST_WINDOW_EXPIRED" s)
      else if bar.close ≤? orh
      then ok (rearmed "RETEST_CLOSE_BELOW_ORH" s)
      else do
        near ← or_raise (near_orh bar.low (tolerance_of cfg) orh) "ZeroDivisionError"
        ok (
            if near || near_vwap bar.low (tolerance_of cfg) s.running_vwap
            then retested bar.stamp s
            else waiting s)

  -- the rest of a round, by the state; only INVALID has left the loop
  unfoldable pub follow_bar :
      Settings F
      → IntradayStructure F
      → Prices F
      → F
      → Option F
      → IntradayStructureState
      → Result (IntradayStructure F)
  unfolding follow_seen
  follow_bar cfg s bar orh previous retest_valid = ok s
  follow_bar cfg s bar orh previous breakout_seen = follow_seen cfg s bar orh s.breakout_at
  follow_bar cfg s bar orh previous _ =
      ok (if crosses previous bar.close orh then broken_out bar.stamp s else s)

  unfoldable pub check_row : Row F → Result (Prices F)
  check_row row = do
    high ← or_raise row.bar.high "INTRADAY_BAR_INCOMPLETE"
    low ← or_raise row.bar.low "INTRADAY_BAR_INCOMPLETE"
    close ← or_raise row.bar.close "INTRADAY_BAR_INCOMPLETE"
    ok (record { stamp = row.stamp; high = high; low = low; close = close })

  abbrev pub stamped : Row F → Prices F → IntradayStructure F → IntradayStructure F
  stamped row bar s = record (add_vwap row.bar s) {
    last_bar_at = some bar.stamp;
    last_close = some bar.close;
  }

  -- a round behind the opening range: the structure, and whether the loop returns it
  unfoldable pub judge_bar :
      Settings F
      → F
      → F
      → Prices F
      → Option F
      → IntradayStructure F
      → Result (Bool × IntradayStructure F)
  unfolding follow_bar structure_invalidation_reason
  judge_bar cfg orh orl bar previous s =
      elim (structure_invalidation_reason s.state bar.low orh orl
        cfg.retest_invalidation_buffer_r) [
          | some reason ↦ ok (true, invalidated reason s)
          | none ↦ do next ← follow_bar cfg s bar orh previous s.state; ok (false, next)
        ]

  unfoldable pub judge_row :
      Settings F
      → Instant
      → F
      → F
      → Prices F
      → Option F
      → IntradayStructure F
      → Result (Bool × IntradayStructure F)
  unfolding judge_bar
  judge_row cfg trading orh orl bar previous s =
      if ltb bar.stamp trading then ok (false, s) else judge_bar cfg orh orl bar previous s

  -- the loop over `ordered`; `trading` is the end of the opening range
  unfoldable pub replay_rows :
      Settings F
      → Instant
      → F
      → F
      → List (Row F)
      → Option F
      → IntradayStructure F
      → Result (IntradayStructure F)
  unfolding check_row judge_row apply_vwap
  replay_rows cfg trading orh orl [] previous s = ok s
  replay_rows cfg trading orh orl (row ∷ rows) previous s = do
    bar ← check_row row
    (returned, next) ← judge_row cfg trading orh orl bar previous (stamped row bar s)
    elim returned [
      | true ↦ ok next
      | false ↦ replay_rows cfg trading orh orl rows (some bar.close) next
    ]

  -- behind the opening range; the bounds are there, as the opening range is not empty
  unfoldable pub replay_range :
      Settings F
      → Instant
      → List (Row F)
      → IntradayStructure F
      → Option F
      → Option F
      → Result (IntradayStructure F)
  unfolding replay_rows
  replay_range cfg trading rows s none orl = err "AssertionError"
  replay_range cfg trading rows s (some orh) none = err "AssertionError"
  replay_range cfg trading rows s (some orh) (some orl) =
      if orh ⊖ orl ≤? zero_f
      then ok (invalidated "OPENING_RANGE_INVALID" s)
      else replay_rows cfg trading orh orl rows none s

  abbrev pub established : IntradayStructure F → IntradayStructure F
  established s = record s { state = armed; reasons = "OPENING_RANGE_ESTABLISHED" ∷ [] }

  -- `now or (max(by_minute) if by_minute else session_start)`
  abbrev pub updated_at_of : Option Instant → List (Row F) → Instant → Instant
  updated_at_of (some now) rows start = now
  updated_at_of none rows start = elim (last_row rows) [ none ↦ start | some row ↦ row.minute ]

  -- the arguments behind the bars are `now` and `sip_confirmed_through`
  unfoldable pub compute_structure :
      Settings F
      → Zone
      → (String → String)
      → String
      → String
      → List (Bar F)
      → Option Instant
      → Option Instant
      → Result (IntradayStructure F)
  unfolding session_rows with_opening opening_rows slots incomplete replay_range merged_bars first
      select any
  compute_structure cfg zone upper symbol session_date bars now confirmed =
      let start = zone.opens_at session_date in
      let rows = session_rows zone session_date bars in
      let stamps = slots cfg.intraday_opening_range_minutes start in
      let missing = missing_stamps rows stamps in
      let s = fresh_structure (upper symbol) session_date (updated_at_of now rows start) in
      do
        opened ← with_opening s (opening_rows rows stamps)
        if is_none_left missing
            then replay_range cfg (start + cfg.intraday_opening_range_minutes * minute) rows
                (established opened) opened.opening_range_high opened.opening_range_low
            else incomplete rows missing confirmed opened
