-- ===== src/Service/Replay/Fills.antt =====
-- `confirm_fill` of orchestration/service.py against the ledger.
use market_brain.Prelude.{◌≡◌, refl, String, some, inl, inr, Bool-cases, ◌==◌, arith}
use market_brain.Prelude.Lists.{length}
use market_brain.Prelude.Dict.{Keyed-insert, Keyed-erase, Keyed-lookup}
use market_brain.Prelude.Result.{ok}
use market_brain.Number.{Double}
use market_brain.Domain.{Instant, TradePlan, WalletState, Reservation, PositionState, PlanStatus}
use market_brain.Ledger.Store.{
  Store, save_plan, save_wallet, save_position, save_reservation, delete_reservation, get_plan,
}
use market_brain.Ledger.Replay.{apply_event}
use market_brain.Service.Action.{Config, Settles, returns, settle_raise_if, settle_bind}
use market_brain.Service.Wallet.{open_positions}
use market_brain.Service.Exit.{risk_of}
use market_brain.Service.Checks.{Fill, check_reservation, check_price, check_limits, find_existing}
use market_brain.Service.Fill.{
  filled_position, drawn, charged, old_risk, cleared, is_broken, log_fill, fill_reserved,
  confirm_fill,
}
use market_brain.Service.Replay.Consistent.{IsKeyed, Keeps, plan_key, reservation_key, position_key}
use market_brain.Service.Replay.Writes.{Keeps-refl, Keeps-trans, log-Keeps, notice-Keeps}
use market_brain.Service.Replay.Sweep.{sweep_expired-Keeps}

module _ {F : Type 0} ⦃num : Double F⦄ where
  log_fill-Keeps :
      (plan_id : String) (plan : TradePlan F) (wallet : WalletState F) (left : Reservation F)
      (position : PositionState F) (now : Instant) (s : Store F)
      → IsKeyed s
      → plan.plan_id ≡ plan_id
      → Keeps s (log_fill plan_id plan wallet left position now s)
  unfolding apply_event
  log_fill-Keeps plan_id plan wallet left position now s h e =
      elim (Bool-cases (left.quantity == 0)) [
        | inl b ↦
            let kept = record plan { status = PlanStatus.filled } in
            let t =
              save_plan kept
                (save_wallet wallet (save_position position (delete_reservation plan_id s))) in
            rw b (
              log-Keeps _ s t
                (
                  Keyed-insert plan_key kept s.plans h.0,
                  Keyed-erase reservation_key plan_id s.reservations h.1,
                  Keyed-insert position_key position s.positions h.2,
                )
                refl (rw e refl))
        | inr b ↦
            let kept = record plan { status = PlanStatus.reserved } in
            let t =
              save_plan kept
                (save_wallet wallet (save_position position (save_reservation left s))) in
            rw b (
              log-Keeps _ s t
                (
                  Keyed-insert plan_key kept s.plans h.0,
                  Keyed-insert reservation_key left s.reservations h.1,
                  Keyed-insert position_key position s.positions h.2,
                )
                refl refl)
      ]

  check_reservation_plan :
      (fill : Fill F) (now : Instant) (s : Store F)
      {r : TradePlan F × WalletState F × Reservation F}
      → check_reservation fill now s ≡ ok r
      → get_plan fill.plan_id s ≡ some r.0
  unfolding check_reservation
  check_reservation_plan fill now s {r} e = ground arith

  fill_reserved-Keeps :
      (cfg : Config F) (fill : Fill F) (checked_at now : Instant) (s t : Store F)
      → IsKeyed t
      → Keeps s t
      → IsKeyed s
      → Settles (Keeps s) s (fill_reserved cfg fill checked_at now t)
  unfolding fill_reserved
  fill_reserved-Keeps cfg fill checked_at now s t i k h =
      let start = Keeps-refl s h in
      settle_bind start (check_reservation fill checked_at t) _ (λ found checked.
        let plan = found.0 in
        let wallet = found.1 in
        let existing = find_existing fill.plan_id t in
        settle_bind start (check_price fill plan wallet found.2) _ (λ plan_stop _.
          settle_bind start
            (check_limits cfg fill plan wallet existing plan_stop (length (open_positions t))) _
            (λ stop _.
              let position = filled_position fill plan existing stop now in
              let left = drawn fill plan plan_stop found.2 in
              let charge =
                charged fill wallet found.2 left (old_risk existing)
                  (risk_of position.average_fill stop position.quantity) in
              let own =
                Keyed-lookup plan_key fill.plan_id t.plans i.0
                  (check_reservation_plan fill checked_at t checked) in
              let filled =
                Keeps-trans k (
                  log_fill-Keeps fill.plan_id plan (cleared charge now) left position now t i
                    own) in
              settle_raise_if start (is_broken charge) "WALLET_ACCOUNTING_INVARIANT_BROKEN" _ (
                returns position _
                  (Keeps-trans filled (notice-Keeps position now _ _ filled.keyed))))))

  pub confirm_fill-Keeps :
      (cfg : Config F) (fill : Fill F) (sweep_at checked_at now : Instant) (s : Store F)
      → IsKeyed s
      → Settles (Keeps s) s (confirm_fill cfg fill sweep_at checked_at now s)
  unfolding confirm_fill
  confirm_fill-Keeps cfg fill sweep_at checked_at now s h =
      let swept = sweep_expired-Keeps sweep_at s h in
      fill_reserved-Keeps cfg fill checked_at now s _ swept.keyed swept h
