-- ===== src/Engines/Wallet.antt =====
-- engines/wallet.py: how many shares the wallet can carry.
pub mod Capacity
use market_brain.Prelude.{
  ℕ, String, Bool, true, false, ◌||◌, Option, none, some, List, [], ◌∷◌, if◌then◌else◌, leb,
}
use market_brain.Prelude.Result.{Result, ok, err, ◌>>=◌, or_raise}
use market_brain.Number.{
  Double, ◌⊕◌, ◌⊖◌, ◌⊗◌, ◌⊘◌, ◌<?◌, ◌≤?◌, zero_f, max_f, min_f, ℤ, pos_part, min_ℤ,
}
use market_brain.Domain.{TradePlan, WalletState}
use market_brain.Settings.{Settings}

pub record SizeResult (F : Type 0) : Type 0 where
  pub allowed : Bool
  pub quantity : ℕ
  pub risk_dollars : F
  pub cash_required : F
  pub reasons : List String

module _ {F : Type 0} ⦃num : Double F⦄ where
  -- `TradePlan.risk_per_share`; a missing stop raises TypeError
  abbrev pub risk_per_share : TradePlan F → Result F
  risk_per_share plan = do stop ← or_raise plan.stop "TypeError"; ok (plan.entry_trigger ⊖ stop)

  abbrev pub or_default : Option F → F → F
  or_default none d = d
  or_default (some v) d = v

  abbrev pub refused : String → SizeResult F
  refused reason = record {
    allowed = false;
    quantity = 0;
    risk_dollars = zero_f;
    cash_required = zero_f;
    reasons = reason ∷ [];
  }

  -- `floor`, which raises on NaN and on an infinity
  abbrev pub floor_int : F → Result ℤ
  floor_int x = or_raise (num.floor x) "ValueError"

  -- `remaining_daily`
  abbrev pub remaining_daily : WalletState F → F → F
  remaining_daily wallet daily_loss_pct =
      wallet.capital_base ⊗ daily_loss_pct ⊘ num.lit 100 0
      ⊖ wallet.daily_realized_loss
      ⊖ wallet.open_risk

  -- `budget`
  abbrev pub risk_budget : WalletState F → TradePlan F → F → F → F
  risk_budget wallet plan trade_risk_pct daily_loss_pct =
      min_f (wallet.capital_base ⊗ trade_risk_pct ⊘ num.lit 100 0)
        (remaining_daily wallet daily_loss_pct)
      ⊗ plan.quality_risk_multiplier

  -- `available_cash`
  abbrev pub available_cash : WalletState F → F
  available_cash wallet = max_f zero_f (wallet.cash_available ⊖ wallet.reserved_cash)

  -- `max_position_notional`
  abbrev pub position_notional : WalletState F → F → F
  position_notional wallet pct = wallet.capital_base ⊗ pct ⊘ num.lit 100 0

  -- the entry and the risk of a share
  abbrev pub sizing_terms : TradePlan F → Option F → Result (F × F)
  sizing_terms plan none = do risk ← risk_per_share plan; ok (plan.entry_zone_high, risk)
  sizing_terms plan (some price) = do
    stop ← or_raise plan.stop "TypeError"
    ok (price, price ⊖ stop)

  -- the last test and the two answers behind it
  abbrev pub sized : ℕ → F → F → SizeResult F
  sized quantity entry risk = if leb quantity 0 then refused "NO_CAPACITY" else record {
    allowed = true;
    quantity = quantity;
    risk_dollars = num.round 2 (num.of_int quantity ⊗ risk);
    cash_required = num.round 2 (num.of_int quantity ⊗ entry);
    reasons = [];
  }

  -- from `trade_budget` on
  unfoldable pub fit_quantity :
      WalletState F → TradePlan F → F → F → F → F → F → Result (SizeResult F)
  fit_quantity wallet plan entry risk trade_risk_pct daily_loss_pct notional_pct = do
    by_risk ← floor_int (risk_budget wallet plan trade_risk_pct daily_loss_pct ⊘ risk)
    by_cash ← floor_int (available_cash wallet ⊘ entry)
    by_notional ← floor_int (position_notional wallet notional_pct ⊘ entry)
    ok (sized (pos_part (min_ℤ (min_ℤ by_risk by_cash) by_notional)) entry risk)

  -- from the test of the terms on
  unfoldable pub size_on_terms :
      WalletState F → TradePlan F → F → F → F → F → F → Result (SizeResult F)
  unfolding fit_quantity
  size_on_terms wallet plan entry risk trade_risk_pct daily_loss_pct notional_pct =
      if risk ≤? zero_f || entry ≤? zero_f
      then ok (refused "INVALID_PLAN_RISK")
      else if remaining_daily wallet daily_loss_pct ≤? zero_f
      then ok (refused "DAILY_RISK_LIMIT_REACHED")
      else fit_quantity wallet plan entry risk trade_risk_pct daily_loss_pct notional_pct

  unfoldable pub size_from_wallet :
      Settings F
      → WalletState F
      → TradePlan F
      → Option F
      → Option F
      → Option F
      → Option F
      → Result (SizeResult F)
  unfolding size_on_terms
  size_from_wallet cfg wallet plan entry_price max_trade_risk max_daily_loss max_notional =
      let trade_risk_pct = or_default max_trade_risk cfg.max_trade_risk_pct in
      let daily_loss_pct = or_default max_daily_loss cfg.max_daily_loss_pct in
      let notional_pct = or_default max_notional cfg.max_position_notional_pct in
      if wallet.capital_base ≤? zero_f || wallet.cash_available ≤? zero_f
      then ok (refused "WALLET_NOT_SEEDED")
      else sizing_terms plan entry_price >>= λ terms.
          size_on_terms wallet plan terms.0 terms.1 trade_risk_pct daily_loss_pct notional_pct
