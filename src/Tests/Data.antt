-- ===== src/Tests/Data.antt =====
-- Amounts in hundredths, a configuration, a plan, a sample, a wallet and a position.
use market_brain.Prelude.{ℕ, ◌*◌, true, false, none, some, []}
use market_brain.Number.{Cents, pos}
use market_brain.Domain.{
  TradePlan, WalletState, Reservation, PositionState, MarketSnapshot, Metadata, LiquidityProfile,
  QualityProfile, ScoreCard, core_momentum, PlanStatus, protected, reconciled,
}
use market_brain.Settings.{Settings}
use market_brain.Engines.Plan.{PlanLimits}
use market_brain.Service.{Config}
use market_brain.Service.Answers.{Sample}
use market_brain.Service.Checks.{Fill}
use market_brain.Service.Import.{Import}

abbrev pub usd : ℕ → Cents
usd n = some (pos (n * 100))

abbrev pub settings : Settings Cents
settings = record {
  data_plan_keyless = false;
  max_trade_risk_pct = usd 1;
  max_daily_loss_pct = usd 3;
  max_position_notional_pct = usd 50;
  max_concurrent_positions = 3;
  reservation_ttl_seconds = 120;
  max_market_data_age_seconds = usd 10;
  max_delayed_age_minutes = usd 30;
  max_quote_age_seconds = usd 10;
  min_adv = usd 100;
  min_adv_keyless = usd 100;
  min_price = usd 5;
  max_spread_bps = usd 50;
  iex_mid_tolerance_pct = usd 1;
  keyless_max_bar_range_pct = usd 5;
  reconciliation_max_age = 1_000_000_000;
  fill_risk_tolerance = usd 1;
  stop_tolerance_pct = usd 0;
  retest_window_minutes = 10;
  intraday_opening_range_minutes = 2;
  retest_touch_tolerance_pct = usd 1;
  retest_invalidation_buffer_r = some (pos 25);
  plan_ttl_seconds = 300;
  keyless_plan_ttl_seconds = 1800;
  min_risk_pct = usd 1;
  min_opening_range_pct = usd 0;
  min_atr_pct = usd 1;
  atr_target_budget_multiplier = usd 3;
  strategy_speculative_enabled = false;
  stream_stale_alert = 120_000_000;
}

abbrev pub config : Config Cents
config = record { settings = settings; upper = λ text. text }

abbrev pub plan : TradePlan Cents
plan = record {
  symbol = "ACME";
  lane = core_momentum;
  entry_trigger = usd 100;
  entry_zone_high = usd 101;
  stop = some (usd 95);
  tp1 = some (usd 110);
  tp2 = some (usd 120);
  max_spread_pct = usd 1;
  max_slippage_pct = usd 1;
  created_at = 0;
  expires_at = 1_000_000_000;
  quality_risk_multiplier = usd 1;
  plan_id = "p1";
  status = PlanStatus.active;
  reasons = [];
  evidence_hash = "h";
  source_ids = [];
  triggered_at = none;
}

abbrev pub metadata : Metadata Cents
metadata = record {
  independence_group = none;
  last_bar_high = none;
  last_bar_low = none;
  price_cross_check = none;
}

abbrev pub snapshot : MarketSnapshot Cents
snapshot = record {
  symbol = "ACME";
  last = usd 101;
  prior_close = some (usd 96);
  bid = some (usd 101);
  ask = some (usd 101);
  volume = some (usd 1000);
  avg_volume = some (usd 500);
  vwap = some (usd 99);
  open_price = some (usd 97);
  high = some (usd 101);
  low = some (usd 96);
  opening_range_high = some (usd 100);
  opening_range_low = some (usd 96);
  retest_low = some (usd 95);
  atr14 = some (usd 20);
  atr14_pct = some (usd 20);
  remaining_atr = some (usd 15);
  remaining_atr_pct = some (usd 15);
  sector_return_pct = none;
  benchmark_return_pct = none;
  catalyst_verified = true;
  catalyst_strength = usd 1;
  data_age_seconds = some (usd 1);
  source_id = some "ALPACA_IEX";
  delay_minutes = none;
  fetched_at = none;
  authoritative = true;
  halted = false;
  metadata = metadata;
}

abbrev pub profile : LiquidityProfile Cents
profile = record {
  symbol = "ACME";
  adv20 = usd 1000;
  close = usd 96;
  as_of = 0;
  refreshed_at = 0;
  atr14 = some (usd 20);
  atr14_pct = some (usd 20);
  high_52w = none;
}

abbrev pub quality : QualityProfile Cents
quality = record { symbol = "ACME"; score = usd 90; tier = "A"; risk_multiplier = usd 1; as_of = 0 }

abbrev pub score : ScoreCard Cents
score = record {
  symbol = "ACME";
  catalyst_or_continuation = usd 20;
  price_momentum = usd 20;
  volume_liquidity = usd 10;
  relative_strength_sector = usd 10;
  entry_invalidation_structure = usd 10;
  risk_reward = usd 10;
  total = usd 80;
  discovery_total = usd 60;
  reasons = [];
}

abbrev pub limits : PlanLimits Cents
limits = record {
  plan_ttl_seconds = 3600;
  min_risk_pct = usd 1;
  min_opening_range_pct = usd 0;
  min_atr_pct = usd 1;
  atr_target_budget_multiplier = usd 3;
  speculative_enabled = false;
}

abbrev pub wallet : WalletState Cents
wallet = record {
  capital_base = usd 10000;
  cash_available = usd 10000;
  daily_realized_loss = usd 0;
  open_risk = usd 0;
  reserved_cash = usd 0;
  version = 1;
  as_of = 0;
}

abbrev pub held : Reservation Cents
held = record {
  plan_id = "p1";
  quantity = 20;
  reserved_cash = usd 2020;
  reserved_risk = usd 100;
  expires_at = 120_000_000;
}

abbrev pub position : PositionState Cents
position = record {
  position_id = "q1";
  plan_id = "p1";
  symbol = "ACME";
  quantity = 20;
  remaining_quantity = 20;
  average_fill = usd 100;
  stop = some (usd 95);
  tp1 = some (usd 107);
  tp2 = some (usd 110);
  opened_at = 0;
  time_stop_at = some 3_000_000_000;
  realized_pnl = usd 0;
  managed = true;
  source = "FILL_ACK";
  closed_at = none;
  protection = protected;
  broker_stop_price = some (usd 95);
  broker_order_ref = none;
  protected_quantity = 20;
  reconciliation_state = reconciled;
  last_reconciled_at = some 0;
}

abbrev pub sample : Sample Cents
sample = record {
  snapshot = snapshot;
  liquidity_reasons = [];
  retest_valid = true;
  retest_reasons = [];
  alert_id = "a1";
}

abbrev pub fill : Fill Cents
fill = record {
  plan_id = "p1";
  fill_price = usd 100;
  quantity = 8;
  time_stop_minutes = 60;
  stop_order_placed = true;
  stop_order_price = some (usd 95);
  broker_order_ref = some "b1";
  position_id = "q1";
}

abbrev pub import_other : Import Cents
import_other = record {
  symbol = "BETA";
  quantity = 5;
  average_fill = usd 50;
  stop_order_price = none;
  broker_order_ref = none;
  opened_at = none;
  time_stop_minutes = 60;
  position_id = "q2";
  plan_id = "manual";
}
