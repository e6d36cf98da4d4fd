-- ===== src/Service/Wallet.antt =====
-- `seed_wallet` and `reconcile_wallet` of orchestration/service.py.
pub mod Stops
use market_brain.Prelude.{Bool, not, ◌||◌, some, List, [], ◌∷◌}
use market_brain.Prelude.Lists.{select}
use market_brain.Prelude.Result.{Result, ok, ◌>>=◌, ◌>>◌, raise_if, or_raise}
use market_brain.Number.{Double, ◌⊕◌, ◌⊖◌, ◌⊗◌, ◌<?◌, ◌≤?◌, zero_f, max_f}
use market_brain.Domain.{Instant, WalletState, PositionState}
use market_brain.Ledger.Events.{
  empty_payload, EventType, LedgerEvent, wallet_seeded, wallet_reconciled,
}
use market_brain.Ledger.Store.{Store, append, save_wallet, list_positions}
use market_brain.Engines.Position.{is_over}
use market_brain.Service.Action.{Action}

module _ {F : Type 0} ⦃num : Double F⦄ where
  -- `row.closed_at is None and row.remaining_quantity > 0`
  abbrev pub is_open : PositionState F → Bool
  is_open row = not (is_over row)

  abbrev pub open_positions : Store F → List (PositionState F)
  open_positions s = select is_open (list_positions s)

  -- a wallet and the event that carries it whole
  abbrev pub log_wallet : LedgerEvent F → WalletState F → Store F → Store F
  log_wallet event wallet s = append event (save_wallet wallet s)

  -- the wallets that the two methods write
  abbrev pub seeded : F → F → Instant → WalletState F
  seeded capital_base cash_available now = record {
    capital_base = capital_base;
    cash_available = cash_available;
    daily_realized_loss = zero_f;
    open_risk = zero_f;
    reserved_cash = zero_f;
    version = 1;
    as_of = now;
  }

  abbrev pub wallet_event : EventType → WalletState F → Instant → LedgerEvent F
  wallet_event event_type wallet now = record {
    event_type = event_type;
    aggregate_id = "wallet";
    payload = record empty_payload { wallet = some wallet };
    occurred_at = now;
  }

  unfoldable pub seed_wallet : F → F → Instant → Action F (WalletState F)
  seed_wallet capital_base cash_available now s = do
    raise_if
        (capital_base ≤? zero_f
          || cash_available <? zero_f
          || capital_base ⊗ num.of_int 2 <? cash_available)
        "INVALID_WALLET_SEED"
    let wallet = seeded capital_base cash_available now
    ok (wallet, log_wallet (wallet_event wallet_seeded wallet now) wallet s)

  -- `(row.average_fill - row.stop) * row.remaining_quantity`, not below zero; a position without a
  -- stop raises TypeError
  abbrev pub row_risk : PositionState F → Result F
  row_risk row = do
    stop ← or_raise row.stop "TypeError"
    ok (max_f zero_f ((row.average_fill ⊖ stop) ⊗ num.of_int row.remaining_quantity))

  -- `sum(...)`
  unfoldable pub sum_risk : F → List (PositionState F) → Result F
  sum_risk acc [] = ok acc
  sum_risk acc (row ∷ rows) = row_risk row >>= λ risk. sum_risk (acc ⊕ risk) rows

  unfoldable pub reconcile_wallet : F → F → F → Instant → Action F (WalletState F)
  reconcile_wallet capital_base cash_available daily_realized_loss now s = do
    raise_if (capital_base ≤? zero_f || cash_available <? zero_f || daily_realized_loss <? zero_f)
        "INVALID_WALLET_RECONCILIATION"
    open_risk ← sum_risk zero_f (open_positions s)
    let wallet = record (seeded capital_base cash_available now) {
      daily_realized_loss = daily_realized_loss;
      open_risk = num.round 2 open_risk;
    }
    ok (wallet, log_wallet (wallet_event wallet_reconciled wallet now) wallet s)
