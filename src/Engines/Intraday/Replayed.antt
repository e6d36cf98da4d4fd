-- ===== src/Engines/Intraday/Replayed.antt =====
-- The result of `compute_structure` in engines/intraday.py.
use market_brain.Prelude.{
  ◌∙◌, ℕ, ◌≡◌, inl, inr, ◌+◌, ◌*◌, ◌≤◌, Bool, true, false, not, ◌&&◌, Option, none, some, List, [],
  ◌∷◌, arith, Option-cases, Bool-cases, is_some, ltb, leb,
}
use market_brain.Prelude.Result.{ok, ok-injective, >>=-eq-ok}
use market_brain.Number.{Double, ◌<?◌, ◌≤?◌}
use market_brain.Domain.{Instant, minute}
use market_brain.Domain.Intraday.{
  IntradayStructureState, IntradayStructure, armed, breakout_seen, retest_valid,
}
use market_brain.Settings.{Settings}
use market_brain.Engines.Intraday.Bars.{apply_vwap, near_orh, structure_invalidation_reason}
use market_brain.Engines.Intraday.Update.{Prices, on_state, tolerance_of}
use market_brain.Engines.Intraday.Merge.{Row}
use market_brain.Engines.Intraday.Compute.{
  follow_bar, follow_seen, judge_bar, judge_row, replay_rows, stamped, check_row,
}

-- the stamps of a breakout and of its retest, as far as the state has them
abbrev pub is_timed : ℕ → Instant → Option Instant → Option Instant → IntradayStructureState → Bool
is_timed window trading none retest_at breakout_seen = false
is_timed window trading (some at) retest_at breakout_seen = leb trading at
is_timed window trading none retest_at retest_valid = false
is_timed window trading (some at) none retest_valid = false
is_timed window trading (some at) (some ret) retest_valid = leb trading at && leb ret (at + window)
is_timed window trading breakout_at retest_at _ = true

module _ {F : Type 0} ⦃num : Double F⦄ where
  -- a state that the loop carries on with
  abbrev pub is_followed : IntradayStructure F → Bool
  is_followed s = elim s.state [
    | armed ↦ true
    | breakout_seen ↦ is_some s.breakout_at
    | retest_valid ↦ true
    | _ ↦ false
  ]

  -- Where the close compares with the top of the range, and the top is not zero, a round of the
  -- recomputation behind its test of the buffer is the one of the incremental update.
  pub follow_bar-on_state :
      (cfg : Settings F) (s : IntradayStructure F) (bar : Prices F) (orh : F) (previous : Option F)
      → is_followed s ≡ true
      → (bar.close ≤? orh) ≡ not (orh <? bar.close)
      → is_some (near_orh bar.low (tolerance_of cfg) orh) ≡ true
      → follow_bar cfg s bar orh previous s.state ≡ on_state cfg s bar orh previous s.state
  unfolding follow_bar on_state
  follow_bar-on_state cfg s bar orh previous f c n = ground arith

  module _ (cfg : Settings F) (trading : Instant) where
    abbrev pub window : ℕ
    window = cfg.retest_window_minutes * minute

    abbrev pub Kept : IntradayStructure F → IntradayStructure F → Type 0
    Kept s t =
        (t.opening_range_high ≡ s.opening_range_high)
        × (t.opening_range_low ≡ s.opening_range_low)
        × (t.opening_bars_seen ≡ s.opening_bars_seen)

    abbrev pub timed : IntradayStructure F → Bool
    timed s = is_timed window trading s.breakout_at s.retest_at s.state

    follow_seen-Kept :
        (s : IntradayStructure F) (bar : Prices F) (orh : F) (breakout_at : Option Instant)
        {t : IntradayStructure F}
        → s.state ≡ breakout_seen
        → s.breakout_at ≡ breakout_at
        → timed s ≡ true
        → follow_seen cfg s bar orh breakout_at ≡ ok t
        → (timed t ≡ true) × Kept s t
    unfolding follow_seen
    follow_seen-Kept s bar orh none b a h e = absurd (ground arith)
    follow_seen-Kept s bar orh (some at) b a h e = ground arith

    follow_bar-Kept :
        (s : IntradayStructure F) (bar : Prices F) (orh : F) (previous : Option F)
        {t : IntradayStructure F}
        → trading ≤ bar.stamp
        → timed s ≡ true
        → follow_bar cfg s bar orh previous s.state ≡ ok t
        → (timed t ≡ true) × Kept s t
    unfolding follow_bar
    follow_bar-Kept s bar orh previous {t} le h e =
        ground (arith, follow_seen-Kept s bar orh s.breakout_at {t = t})

    stamped-Kept :
        (row : Row F) (bar : Prices F) (s : IntradayStructure F)
        → timed s ≡ true
        → (timed (stamped row bar s) ≡ true) × Kept s (stamped row bar s)
    unfolding apply_vwap
    stamped-Kept row bar s h = ground arith

    judge_bar-Kept :
        (orh orl : F) (bar : Prices F) (previous : Option F) (s : IntradayStructure F)
        {returned : Bool} {t : IntradayStructure F}
        → trading ≤ bar.stamp
        → timed s ≡ true
        → judge_bar cfg orh orl bar previous s ≡ ok (returned, t)
        → (timed t ≡ true) × Kept s t
    unfolding judge_bar
    judge_bar-Kept orh orl bar previous s {returned} {t} le h e =
        elim (Option-cases (
          structure_invalidation_reason s.state bar.low orh orl cfg.retest_invalidation_buffer_r)) [
            | inr (reason, broken) ↦ ground arith
            | inl held ↦ ground (arith, follow_bar-Kept s bar orh previous {t = t})
          ]

    judge_row-Kept :
        (orh orl : F) (bar : Prices F) (previous : Option F) (s : IntradayStructure F)
        {returned : Bool} {t : IntradayStructure F}
        → timed s ≡ true
        → judge_row cfg trading orh orl bar previous s ≡ ok (returned, t)
        → (timed t ≡ true) × Kept s t
    unfolding judge_row
    judge_row-Kept orh orl bar previous s {returned} {t} h e =
        elim (Bool-cases (ltb bar.stamp trading)) [
          | inl opening ↦ ground arith
          | inr behind ↦
              judge_bar-Kept orh orl bar previous s {returned = returned} {t = t} (ground arith) h
                (ground arith)
        ]

    Kept-trans : (s t u : IntradayStructure F) → Kept s t → Kept t u → Kept s u
    Kept-trans s t u a b = (b.0 ∙ a.0, b.1 ∙ a.1, b.2 ∙ a.2)

    pub replay_rows-Kept :
        (orh orl : F) (rows : List (Row F)) (previous : Option F) (s : IntradayStructure F)
        {t : IntradayStructure F}
        → timed s ≡ true
        → replay_rows cfg trading orh orl rows previous s ≡ ok t
        → (timed t ≡ true) × Kept s t
    unfolding replay_rows
    replay_rows-Kept orh orl [] previous s h e = ground arith
    replay_rows-Kept orh orl (row ∷ rows) previous s {t} h e =
        let (bar, checked, round) = >>=-eq-ok (check_row row) _ e in
        let s' = stamped row bar s in
        let ((returned, next), judged, rest) =
          >>=-eq-ok (judge_row cfg trading orh orl bar previous s') _ round in
        let (h', k) = stamped-Kept row bar s h in
        let (h2, k2) =
          judge_row-Kept orh orl bar previous s' {returned = returned} {t = next} h' judged in
        elim (Bool-cases returned) [
          | inl out ↦
              let same : next ≡ t = ok-injective (rw out at rest) in
              rw (← same) (h2, Kept-trans s s' next k k2)
          | inr on ↦
              let (h3, k3) =
                replay_rows-Kept orh orl rows (some bar.close) next {t = t} h2 (rw on at rest) in
              (h3, Kept-trans s s' t k (Kept-trans s' next t k2 k3))
        ]
