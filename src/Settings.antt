-- ===== src/Settings.antt =====
-- settings.py: the fields that the modelled code reads. Durations are microseconds.
use market_brain.Prelude.{ℕ, Bool}

pub record Settings (F : Type 0) : Type 0 where
  pub data_plan_keyless : Bool
  pub max_trade_risk_pct : F
  pub max_daily_loss_pct : F
  pub max_position_notional_pct : F
  pub max_concurrent_positions : ℕ
  pub reservation_ttl_seconds : ℕ
  pub max_market_data_age_seconds : F
  pub max_delayed_age_minutes : F
  pub max_quote_age_seconds : F
  pub min_adv : F
  pub min_adv_keyless : F
  pub min_price : F
  pub max_spread_bps : F
  pub iex_mid_tolerance_pct : F
  pub keyless_max_bar_range_pct : F
  -- `timedelta(hours=cfg.reconciliation_max_age_hours)`
  pub reconciliation_max_age : ℕ
  pub fill_risk_tolerance : F
  pub stop_tolerance_pct : F
  pub retest_window_minutes : ℕ
  pub intraday_opening_range_minutes : ℕ
  pub retest_touch_tolerance_pct : F
  pub retest_invalidation_buffer_r : F
  pub plan_ttl_seconds : ℕ
  pub keyless_plan_ttl_seconds : ℕ
  pub min_risk_pct : F
  pub min_opening_range_pct : F
  pub min_atr_pct : F
  pub atr_target_budget_multiplier : F
  pub strategy_speculative_enabled : Bool
  -- `timedelta(seconds=cfg.stream_stale_alert_seconds)`
  pub stream_stale_alert : ℕ
