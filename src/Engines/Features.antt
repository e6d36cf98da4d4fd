-- ===== src/Engines/Features.antt =====
-- engines/features.py: the features of a sample. Where the source changes a snapshot in place, the
-- function returns it.
pub mod Known
use market_brain.Prelude.{ℕ, ◌-◌, Bool, true, false, ◌&&◌, Option, none, some, if◌then◌else◌, leb}
use market_brain.Number.{Double, ◌⊖◌, ◌⊗◌, ◌⊘◌, ◌<?◌, ◌≤?◌, zero_f, max_f, min_f, is_zero_f}
use market_brain.Domain.{Instant, MarketSnapshot, LiquidityProfile, FeatureVector}
use market_brain.Engines.Volatility.{apply_volatility_context}
use market_brain.Engines.Liquidity.{is_keyless_source}
use market_brain.Engines.Intraday.Bars.{Zone, open_time}

module _ {F : Type 0} ⦃num : Double F⦄ where
  -- `_pct`
  unfoldable pub pct : Option F → Option F → Option F
  pct none b = none
  pct (some a) none = none
  pct (some a) (some b) = if is_zero_f b then none else some ((a ⊘ b ⊖ num.lit 1 0) ⊗ num.lit 100 0)

  unfoldable pub price_return_pct : MarketSnapshot F → Option F
  unfolding pct
  price_return_pct snapshot = pct (some snapshot.last) snapshot.prior_close

  -- `(local - opened).total_seconds()`
  abbrev pub seconds_between : ℕ → ℕ → F
  seconds_between opened local_time =
      if leb opened local_time
      then num.of_int (local_time - opened) ⊘ num.of_int 1_000_000
      else zero_f ⊖ num.of_int (opened - local_time) ⊘ num.of_int 1_000_000

  unfoldable pub elapsed_session_fraction : Zone → Instant → F
  elapsed_session_fraction zone now =
      let elapsed_minutes = seconds_between open_time (zone.time_of_day now) ⊘ num.lit 60 0 in
      min_f (num.lit 1 0) (max_f (num.lit 5 2) (elapsed_minutes ⊘ num.lit 390 0))

  abbrev pub expected_volume : Option (LiquidityProfile F) → F → Option F
  expected_volume none fraction = none
  expected_volume (some profile) fraction = some (profile.adv20 ⊗ fraction)

  -- the metadata that it adds inform a reader
  unfoldable pub apply_ranking_context :
      MarketSnapshot F → Option (LiquidityProfile F) → Option F → Zone → Instant → MarketSnapshot F
  unfolding elapsed_session_fraction apply_volatility_context
  apply_ranking_context snapshot profile benchmark_return_pct zone now =
      apply_volatility_context
        (record snapshot {
          avg_volume = expected_volume profile (elapsed_session_fraction zone now);
          benchmark_return_pct = benchmark_return_pct;
        })
        profile

  unfoldable pub spread_of : Option F → Option F → F → Option F
  spread_of none ask last = none
  spread_of (some bid) none last = none
  spread_of (some bid) (some ask) last =
      if zero_f <? last && bid ≤? ask then some ((ask ⊖ bid) ⊘ last ⊗ num.lit 100 0) else none

  unfoldable pub relative_volume_of : Option F → Option F → Option F
  relative_volume_of none avg = none
  relative_volume_of (some volume) none = none
  relative_volume_of (some volume) (some avg) = if is_zero_f avg then none else some (volume ⊘ avg)

  -- the sector's return, or the benchmark's
  abbrev pub anchor_of : Option F → Option F → Option F
  anchor_of (some sector) benchmark = some sector
  anchor_of none benchmark = benchmark

  unfoldable pub relative_strength_of : Option F → Option F → Option F
  relative_strength_of none anchor = none
  relative_strength_of (some price_return) none = none
  relative_strength_of (some price_return) (some anchor) = some (price_return ⊖ anchor)

  -- `spread_pct is not None and spread_pct <= 0.25`
  abbrev pub is_tight : Option F → Bool
  is_tight none = false
  is_tight (some spread) = spread ≤? num.lit 25 2

  -- the dictionary of the evidence informs a reader
  unfoldable pub compute_features : MarketSnapshot F → FeatureVector F
  unfolding price_return_pct spread_of relative_volume_of relative_strength_of is_keyless_source
  compute_features snapshot =
      let spread_pct = spread_of snapshot.bid snapshot.ask snapshot.last in
      let price_return = price_return_pct snapshot in
      record {
        symbol = snapshot.symbol;
        price_return_pct = price_return;
        gap_pct = pct snapshot.open_price snapshot.prior_close;
        relative_volume = relative_volume_of snapshot.volume snapshot.avg_volume;
        spread_pct = spread_pct;
        distance_from_vwap_pct = pct (some snapshot.last) snapshot.vwap;
        relative_strength_pct =
            relative_strength_of price_return
              (anchor_of snapshot.sector_return_pct snapshot.benchmark_return_pct);
        catalyst_strength = max_f zero_f (
            min_f (num.lit 1 0)
              (if snapshot.catalyst_verified then snapshot.catalyst_strength else zero_f));
        liquidity_ok =
            if is_keyless_source snapshot.source_id
            then snapshot.authoritative
            else is_tight spread_pct;
        atr14_pct = snapshot.atr14_pct;
        remaining_atr_pct = snapshot.remaining_atr_pct;
      }
