-- ===== src/Service/Replay/Money.antt =====
-- The methods of orchestration/service.py on the wallet and on positions against the ledger.
use market_brain.Prelude.{ℕ, String, Option, ◌||◌, leb, ltb}
use market_brain.Number.{Double, ◌≤?◌, ◌<?◌, ◌⊖◌, ◌⊕◌, zero_f, max_f}
use market_brain.Domain.{Instant}
use market_brain.Ledger.Store.{Store, get_plan, get_position}
use market_brain.Service.Action.{
  Config, Settles, returns, settle_raise_if, settle_bind, settle_or_raise,
}
use market_brain.Service.Wallet.{seed_wallet, reconcile_wallet, sum_risk, open_positions}
use market_brain.Service.Import.{
  Import, import_position, imported, import_wallet, is_not_positive, has_symbol,
}
use market_brain.Service.Exit.{
  protect_position, confirm_exit, plan_stop_of, first_stop, min_plan_stop, looser_reason, epsilon,
  is_below, risk_of, protected_at,
}
use market_brain.Service.Replay.Consistent.{IsKeyed, Keeps}
use market_brain.Service.Replay.Writes.{
  Keeps-refl, Keeps-trans, seeded-Keeps, reconciled-Keeps, imported-Keeps, notice-Keeps,
  protected-Keeps, sold-Keeps,
}

module _ {F : Type 0} ⦃num : Double F⦄ where
  pub seed_wallet-Keeps :
      (capital cash : F) (now : Instant) (s : Store F)
      → IsKeyed s
      → Settles (Keeps s) s (seed_wallet capital cash now s)
  unfolding seed_wallet
  seed_wallet-Keeps capital cash now s h =
      settle_raise_if (Keeps-refl s h) _ _ _ (returns _ _ (seeded-Keeps _ now s h))

  pub reconcile_wallet-Keeps :
      (capital cash loss : F) (now : Instant) (s : Store F)
      → IsKeyed s
      → Settles (Keeps s) s (reconcile_wallet capital cash loss now s)
  unfolding reconcile_wallet
  reconcile_wallet-Keeps capital cash loss now s h =
      let start = Keeps-refl s h in
      settle_raise_if start (capital ≤? zero_f || cash <? zero_f || loss <? zero_f)
        "INVALID_WALLET_RECONCILIATION" _
        (settle_bind start (sum_risk zero_f (open_positions s)) _
          (λ risk _. returns _ _ (reconciled-Keeps _ now s h)))

  pub import_position-Keeps :
      (cfg : Config F) (i : Import F) (now : Instant) (s : Store F)
      → IsKeyed s
      → Settles (Keeps s) s (import_position cfg i now s)
  unfolding import_position
  import_position-Keeps cfg i now s h =
      let start = Keeps-refl s h in
      settle_or_raise start s.wallet "WALLET_NOT_SEEDED" _ (λ wallet _.
        let position = imported cfg i now in
        let k = imported-Keeps i.position_id position (import_wallet i now wallet) now s h in
        settle_raise_if start (leb i.quantity 0 || i.average_fill ≤? zero_f)
          "INVALID_IMPORTED_POSITION" _
          (settle_raise_if start (is_not_positive i.stop_order_price) "INVALID_IMPORTED_STOP" _ (
            settle_raise_if start (has_symbol cfg i.symbol s)
              "OPEN_POSITION_ALREADY_EXISTS_FOR_SYMBOL" _
              (returns position _ (Keeps-trans k (notice-Keeps position now _ _ k.keyed))))))

  pub protect_position-Keeps :
      (cfg : Config F) (position_id : String) (price : F) (ref : Option String) (now : Instant)
      (s : Store F)
      → IsKeyed s
      → Settles (Keeps s) s (protect_position cfg position_id price ref now s)
  unfolding protect_position
  protect_position-Keeps cfg position_id price ref now s h =
      let start = Keeps-refl s h in
      settle_or_raise start (get_position position_id s) "POSITION_OR_WALLET_MISSING" _
        (λ position _. settle_or_raise start s.wallet "POSITION_OR_WALLET_MISSING" _ (λ wallet _.
          let plan_stop = plan_stop_of (get_plan position.plan_id s) in
          settle_or_raise start (first_stop position.stop plan_stop) "POSITION_STOP_UNDEFINED" _
            (λ reference _.
              settle_raise_if start
                (price <? max_f (min_plan_stop cfg plan_stop reference) reference ⊖ epsilon)
                (looser_reason position.stop price) _
                (settle_raise_if start
                  (is_below (
                    wallet.open_risk
                    ⊖ risk_of position.average_fill reference position.remaining_quantity
                    ⊕ risk_of position.average_fill price position.remaining_quantity))
                  "WALLET_ACCOUNTING_INVARIANT_BROKEN" _
                  (returns (protected_at position price ref) _
                    (protected-Keeps position_id (protected_at position price ref) _ now s h))))))

  pub confirm_exit-Keeps :
      (position_id : String) (price : F) (quantity : ℕ) (now : Instant) (s : Store F)
      → IsKeyed s
      → Settles (Keeps s) s (confirm_exit position_id price quantity now s)
  unfolding confirm_exit
  confirm_exit-Keeps position_id price quantity now s h =
      let start = Keeps-refl s h in
      settle_or_raise start (get_position position_id s) "POSITION_OR_WALLET_MISSING" _
        (λ position _. settle_or_raise start s.wallet "POSITION_OR_WALLET_MISSING" _ (λ wallet _.
          settle_raise_if start (leb quantity 0 || ltb position.remaining_quantity quantity)
            "INVALID_EXIT_QUANTITY" _ (returns _ _ (sold-Keeps position_id _ _ now s h))))
