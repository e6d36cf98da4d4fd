-- ===== src/Engines/Intraday/Recomputed.antt =====
-- What `compute_structure` of engines/intraday.py says of a session.
use market_brain.Prelude.{
  ◌∙◌, ℕ, zero, suc, ◌≡◌, inl, inr, refl, ◌+◌, ◌*◌, ◌≤◌, String, true, false, Option, none, some,
  List, [], ◌∷◌, arith, Option-cases, Bool-cases, ap,
}
use market_brain.Prelude.Lists.{length, select}
use market_brain.Prelude.Result.{ok, >>=-eq-ok}
use market_brain.Number.{Double, ◌⊖◌, ◌≤?◌, zero_f}
use market_brain.Domain.{Instant, minute}
use market_brain.Domain.Intraday.{IntradayStructure, armed, retest_valid, fresh_structure}
use market_brain.Settings.{Settings}
use market_brain.Engines.Intraday.Bars.{Zone, Bar}
use market_brain.Engines.Intraday.Merge.{Row}
use market_brain.Engines.Intraday.Compute.{
  slots, row_at, opening_rows, missing_stamps, is_none_left, replay_range, incomplete,
  compute_structure, with_opening, session_rows, updated_at_of, established,
}
use market_brain.Engines.Intraday.Replayed.{is_timed, replay_rows-Kept, timed, Kept}

length-slots : (n : ℕ) (at : Instant) → length (slots n at) ≡ n
unfolding slots
length-slots zero at = refl
length-slots (suc n) at = ap suc (length-slots n (at + minute))

-- both stamps stand in the order of the test
timed-stamps :
    (window trading : Instant) (breakout_at retest_at : Option Instant)
    → is_timed window trading breakout_at retest_at retest_valid ≡ true
    → (at : Instant) × (ret : Instant) × (breakout_at ≡ some at)
      × (retest_at ≡ some ret)
      × (trading ≤ at)
      × (ret ≤ at + window)
timed-stamps window trading none retest_at h = absurd (ground arith)
timed-stamps window trading (some at) none h = absurd (ground arith)
timed-stamps window trading (some at) (some ret) h =
    (at, ret, refl, refl, ground arith, ground arith)

module _ {F : Type 0} ⦃num : Double F⦄ where
  -- Where no slot is missing, every slot has its row.
  length-opening_rows :
      (rows : List (Row F)) (stamps : List Instant)
      → is_none_left (missing_stamps rows stamps) ≡ true
      → length (opening_rows rows stamps) ≡ length stamps
  unfolding opening_rows select
  length-opening_rows rows [] h = refl
  length-opening_rows rows (at ∷ stamps) h = elim (Option-cases (row_at rows at)) [
    | inl gap ↦ absurd (ground arith)
    | inr (row, e) ↦ ground (arith, length-opening_rows rows stamps)
  ]

  with_opening-seen :
      (s : IntradayStructure F) (rows : List (Row F)) {t : IntradayStructure F}
      → with_opening s rows ≡ ok t
      → t.opening_bars_seen ≡ length rows
  unfolding with_opening
  with_opening-seen s rows {t} e = ground arith

  incomplete-state :
      (rows : List (Row F)) (missing : List Instant) (confirmed : Option Instant)
      (s : IntradayStructure F) {t : IntradayStructure F}
      → incomplete rows missing confirmed s ≡ ok t
      → t.state ≡ retest_valid
      → ⊥
  unfolding incomplete
  incomplete-state rows missing confirmed s e v = ground arith

  -- a session that has shown a valid retest
  pub record IsReplayed (cfg : Settings F) (zone : Zone) (t : IntradayStructure F) (date : String)
      (rows : List (Row F)) : Type 0 where
    pub at : Instant
    pub ret : Instant
    pub orh : F
    pub orl : F
    pub complete :
        is_none_left
          (missing_stamps rows (slots cfg.intraday_opening_range_minutes (zone.opens_at date)))
        ≡ true
    pub all_seen : t.opening_bars_seen ≡ cfg.intraday_opening_range_minutes
    pub has_high : t.opening_range_high ≡ some orh
    pub has_low : t.opening_range_low ≡ some orl
    pub range_positive : (orh ⊖ orl ≤? zero_f) ≡ false
    pub has_breakout : t.breakout_at ≡ some at
    pub has_retest : t.retest_at ≡ some ret
    pub behind_opening : zone.opens_at date + cfg.intraday_opening_range_minutes * minute ≤ at
    pub in_window : ret ≤ at + cfg.retest_window_minutes * minute

  replay_range-Kept :
      (cfg : Settings F) (trading : Instant) (rows : List (Row F)) (s : IntradayStructure F)
      (high low : Option F) {t : IntradayStructure F}
      → s.opening_range_high ≡ high
      → s.opening_range_low ≡ low
      → s.state ≡ armed
      → replay_range cfg trading rows s high low ≡ ok t
      → t.state ≡ retest_valid
      → (orh : F) × (orl : F) × (high ≡ some orh)
        × (low ≡ some orl)
        × ((orh ⊖ orl ≤? zero_f) ≡ false)
        × (timed cfg trading t ≡ true)
        × Kept cfg trading s t
  unfolding replay_range
  replay_range-Kept cfg trading rows s none low h l a e v = absurd (ground arith)
  replay_range-Kept cfg trading rows s (some orh) none h l a e v = absurd (ground arith)
  replay_range-Kept cfg trading rows s (some orh) (some orl) {t} h l a e v =
      let positive : (orh ⊖ orl ≤? zero_f) ≡ false = ground arith in
      let (h1, k1) =
        replay_rows-Kept cfg trading orh orl rows none s {t = t} (ground arith) (ground arith) in
      (orh, orl, refl, refl, positive, h1, k1)

  -- A recomputation that returns RETEST_VALID has found a bar for every minute of the opening range,
  -- over a range that is positive; its breakout is behind the opening range and its retest is not
  -- later than the window behind the breakout.
  pub compute_structure-IsReplayed :
      (cfg : Settings F) (zone : Zone) (upper : String → String) (symbol date : String)
      (bars : List (Bar F)) (now confirmed : Option Instant) {t : IntradayStructure F}
      → compute_structure cfg zone upper symbol date bars now confirmed ≡ ok t
      → t.state ≡ retest_valid
      → IsReplayed cfg zone t date (session_rows zone date bars)
  unfolding compute_structure
  compute_structure-IsReplayed cfg zone upper symbol date bars now confirmed {t} e v =
      let n = cfg.intraday_opening_range_minutes in
      let start = zone.opens_at date in
      let rows = session_rows zone date bars in
      let s = fresh_structure (upper symbol) date (updated_at_of now rows start) in
      let (opened, o, rest) = >>=-eq-ok (with_opening s (opening_rows rows (slots n start))) _ e in
      let trading = start + n * minute in
      elim (Bool-cases (is_none_left (missing_stamps rows (slots n start)))) [
        | inr gap ↦ absurd (
            incomplete-state rows (missing_stamps rows (slots n start)) confirmed opened {t = t}
              (ground arith) v)
        | inl complete ↦
            let (orh, orl, e1, e2, positive, h, k) =
              replay_range-Kept cfg trading rows (established opened) opened.opening_range_high
                opened.opening_range_low {t = t} refl refl refl (ground arith) v in
            let (at, ret, b, r, behind, within) =
              timed-stamps (cfg.retest_window_minutes * minute) trading t.breakout_at t.retest_at
                (rw v at h) in
            record {
              at = at;
              ret = ret;
              orh = orh;
              orl = orl;
              complete = complete;
              all_seen = omega (
                arith,
                k.2,
                with_opening-seen s (opening_rows rows (slots n start)) o,
                length-opening_rows rows (slots n start) complete,
                length-slots n start,
              );
              has_high = k.0 ∙ e1;
              has_low = k.1 ∙ e2;
              range_positive = positive;
              has_breakout = b;
              has_retest = r;
              behind_opening = behind;
              in_window = within;
            }
      ]
