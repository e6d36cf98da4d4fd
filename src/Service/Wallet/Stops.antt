-- ===== src/Service/Wallet/Stops.antt =====
-- When `reconcile_wallet` of orchestration/service.py can return.
use market_brain.Prelude.{◌≡◌, true, List, [], ◌∷◌, arith, is_some, ◌||◌}
use market_brain.Prelude.Lists.{All}
use market_brain.Prelude.Result.{ok, raise_if-eq-ok, >>=-eq-ok}
use market_brain.Number.{Double, ◌⊕◌, ◌<?◌, ◌≤?◌, zero_f}
use market_brain.Domain.{Instant, WalletState, PositionState}
use market_brain.Ledger.Store.{Store}
use market_brain.Service.Wallet.{row_risk, sum_risk, open_positions, reconcile_wallet}

module _ {F : Type 0} ⦃num : Double F⦄ where
  row_risk-stop : (row : PositionState F) {r : F} → row_risk row ≡ ok r → is_some row.stop ≡ true
  row_risk-stop row e = ground arith

  sum_risk-All :
      (acc : F) (rows : List (PositionState F)) {r : F}
      → sum_risk acc rows ≡ ok r
      → All (λ (row : PositionState F). is_some row.stop ≡ true) rows
  unfolding sum_risk
  sum_risk-All acc [] e = tt
  sum_risk-All acc (row ∷ rows) {r} e =
      let (risk, e1, rest) = >>=-eq-ok (row_risk row) (λ risk. sum_risk (acc ⊕ risk) rows) e in
      (row_risk-stop row e1, sum_risk-All (acc ⊕ risk) rows {r = r} rest)

  -- A reconciliation that returns found a stop on every open position: where one has none, the sum
  -- of the risks raises.
  pub reconcile_wallet-All :
      (capital cash loss : F) (now : Instant) (s : Store F) {w : WalletState F} {t : Store F}
      → reconcile_wallet capital cash loss now s ≡ ok (w, t)
      → All (λ (row : PositionState F). is_some row.stop ≡ true) (open_positions s)
  unfolding reconcile_wallet
  reconcile_wallet-All capital cash loss now s {w} {t} e =
      let (valid, rest) =
        raise_if-eq-ok (capital ≤? zero_f || cash <? zero_f || loss <? zero_f)
          "INVALID_WALLET_RECONCILIATION" _ e in
      let (risk, summed, done) = >>=-eq-ok (sum_risk zero_f (open_positions s)) _ rest in
      sum_risk-All zero_f (open_positions s) summed
