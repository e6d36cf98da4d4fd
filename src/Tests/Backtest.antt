-- ===== src/Tests/Backtest.antt =====
-- The theorem on the replay of a session at a concrete input.
use market_brain.Prelude.{refl, ℕ, ◌*◌, some, List, [], ◌∷◌}
use market_brain.Number.{Cents, cents_double, pos}
use market_brain.Domain.{minute}
use market_brain.Engines.Position.{on_levels}
use market_brain.Backtest.Trade.{TradeBar, ManagedTrade, leg_of, manage_trade}
use market_brain.Backtest.Trade.Sold.{IsSplit, IsSold}
use market_brain.Backtest.Trade.Managed.{manage_trade-IsSold}
use market_brain.Tests.Data.{usd, plan}

abbrev bar : ℕ → ℕ → ℕ → ℕ → ℕ → TradeBar Cents
bar n open_price high low close = record {
  stamp = some (some (n * minute));
  open_price = some (usd open_price);
  high = some (usd high);
  low = some (usd low);
  close = some (usd close);
}

abbrev split : IsSplit Cents
split = record {
  whole_positive = refl;
  whole_open = refl;
  half_positive = refl;
  half_open = refl;
  whole_sold = refl;
  half_sold = refl;
}

-- the bar of the entry, one that reaches the first target, and one that reaches the second
abbrev bars : List (TradeBar Cents)
bars = bar 0 100 101 100 101 ∷ bar 1 101 111 101 111 ∷ bar 2 111 120 111 120 ∷ []

-- the half at the first target, and the rest at the second
abbrev trade : ManagedTrade Cents
trade = record {
  symbol = "ACME";
  plan_id = "p1";
  entry_at = 0;
  trigger = usd 100;
  fill = usd 101;
  quantity = 10;
  stop = usd 95;
  tp1 = usd 110;
  tp2 = usd 120;
  exit_legs =
      leg_of "TP1" (usd 110) (some (pos 50)) 100_000_000
      ∷ leg_of "TP2" (usd 120) (some (pos 50)) 160_000_000
      ∷ [];
  r = some (pos 233);
}

manage_trade-IsSold_example : IsSold (usd 95) (usd 110) (usd 120) trade.exit_legs
unfolding manage_trade on_levels
manage_trade-IsSold_example =
    manage_trade-IsSold split "ACME" plan (usd 101) 0 10 bars 0 [] {trade = trade} refl
