-- ===== src/Service/Activate/Reserving.antt =====
-- What a BUY_NOW of `_activate_with_context` (orchestration/service.py) reserves.
use mathlib.Core.Path.{subst}
use market_brain.Prelude.{
  ◌≡◌, refl, ◌+◌, ◌*◌, ◌++◌, String, some, arith, inl, inr, true, Bool-cases,
}
use market_brain.Prelude.Dict.{lookup-insert_own}
use market_brain.Prelude.Result.{ok, Result-cases, or_raise-eq-ok, if-eq-ok}
use market_brain.Number.{Double, ◌⊕◌, ◌⊖◌, ◌⊗◌}
use market_brain.Domain.{
  Instant, second, TradePlan, WalletState, Reservation, ActivationDecision, PlanStatus,
}
use market_brain.Ledger.Events.{plan_evaluated}
use market_brain.Engines.Liquidity.{dedupe}
use market_brain.Ledger.Store.{Store, get_plan, get_reservation}
use market_brain.Service.Action.{Config}
use market_brain.Service.Answers.{Sample, is_buy, has_levels, common_reasons, log_note}
use market_brain.Service.Activate.{
  on_decision, decide, answered, reservation_of, charged_wallet, reserve,
}

module _ {F : Type 0} ⦃num : Double F⦄ where
  -- The store behind a BUY_NOW with its decision: the row of the reservation, and the wallet.
  pub record IsReserved (cfg : Config F) (plan_id : String) (plan : TradePlan F)
      (wallet : WalletState F) (now : Instant) (d : ActivationDecision F) (t : Store F)
      : Type 0 where
    pub stop : F
    pub row : Reservation F
    pub paid : WalletState F
    pub stop_is : plan.stop ≡ some stop
    pub held : get_reservation plan_id t ≡ some row
    pub row_of_plan : row.plan_id ≡ plan_id
    pub row_quantity : row.quantity ≡ d.quantity
    pub row_cash : row.reserved_cash ≡ num.round 2 (num.of_int d.quantity ⊗ plan.entry_zone_high)
    pub row_risk :
        row.reserved_risk ≡ num.round 2 (num.of_int d.quantity ⊗ (plan.entry_trigger ⊖ stop))
    pub row_deadline : row.expires_at ≡ now + cfg.reservation_ttl_seconds * second
    pub kept : get_plan plan.plan_id t ≡ some (record plan { status = PlanStatus.reserved })
    pub wallet_is : t.wallet ≡ some paid
    pub cash_charged : paid.reserved_cash ≡ wallet.reserved_cash ⊕ row.reserved_cash
    pub risk_charged : paid.open_risk ≡ wallet.open_risk ⊕ row.reserved_risk
    pub cash_available : paid.cash_available ≡ wallet.cash_available
    pub capital_base : paid.capital_base ≡ wallet.capital_base
    pub daily_realized_loss : paid.daily_realized_loss ≡ wallet.daily_realized_loss
    pub next_version : paid.version ≡ wallet.version + 1

  reserve-IsReserved :
      (cfg : Config F) (plan_id : String) (plan : TradePlan F) (wallet : WalletState F)
      (alert_id : String) (now : Instant) (s : Store F) (d : ActivationDecision F) (stop : F)
      → plan.stop ≡ some stop
      → IsReserved cfg plan_id plan wallet now d (
          reserve plan_id plan
            (reservation_of cfg plan_id plan stop d.quantity now)
            wallet
            alert_id
            now
            s)
  reserve-IsReserved cfg plan_id plan wallet alert_id now s d stop e =
      let row = reservation_of cfg plan_id plan stop d.quantity now in
      record {
        stop = stop;
        row = row;
        paid = charged_wallet row now wallet;
        stop_is = e;
        held = lookup-insert_own plan_id _ s.reservations;
        row_of_plan = refl;
        row_quantity = refl;
        row_cash = refl;
        row_risk = refl;
        row_deadline = refl;
        kept = lookup-insert_own plan.plan_id _ s.plans;
        wallet_is = refl;
        cash_charged = refl;
        risk_charged = refl;
        cash_available = refl;
        capital_base = refl;
        daily_realized_loss = refl;
        next_version = refl;
      }

  on_decision-IsReserved :
      (cfg : Config F) (plan_id : String) (plan : TradePlan F) (wallet : WalletState F)
      (x : Sample F) (now : Instant) (s : Store F) (c : ActivationDecision F)
      {d : ActivationDecision F} {t : Store F}
      → on_decision cfg plan_id plan wallet x now s c ≡ ok (d, t)
      → is_buy d.state ≡ true
      → IsReserved cfg plan_id plan wallet now d t
  on_decision-IsReserved cfg plan_id plan wallet x now s c {d} {t} h b =
      let decision = record c { reasons = dedupe (common_reasons x ++ c.reasons) } in
      let noted = log_note plan_evaluated plan_id now s in
      elim (Bool-cases (is_buy c.state)) [
        | inl buys ↦
            let (stop, e, rest) = or_raise-eq-ok plan.stop "TypeError" _ (rw buys at h) in
            let t0 =
              reserve plan_id plan (reservation_of cfg plan_id plan stop c.quantity now) wallet
                x.alert_id now noted in
            let same : (decision, t0) ≡ (d, t) =
              if-eq-ok (has_levels plan) (decision, t0) "PLAN_PROTECTION_LEVELS_MISSING" rest in
            subst
              (λ (p : ActivationDecision F × Store F).
                IsReserved cfg plan_id plan wallet now p.0 p.1)
              same (reserve-IsReserved cfg plan_id plan wallet x.alert_id now noted decision stop e)
        | inr waits ↦ absurd (ground arith)
      ]

  -- A BUY_NOW, from the call of `activate_plan` on, has stored the reservation of the plan for the
  -- quantity of the decision: its cash is the quantity at the top of the entry zone and its risk the
  -- quantity times the trigger less the stop, both to the cent, and its deadline is the time to live
  -- from now. The plan is marked RESERVED; the wallet has that cash more reserved and that risk more
  -- open, its other amounts as before and the next version.
  pub decide-IsReserved :
      (cfg : Config F) (plan_id : String) (plan : TradePlan F) (wallet : WalletState F)
      (x : Sample F) (now : Instant) (s : Store F) {d : ActivationDecision F} {t : Store F}
      → decide cfg plan_id plan wallet x now s ≡ ok (d, t)
      → is_buy d.state ≡ true
      → IsReserved cfg plan_id plan wallet now d t
  unfolding decide
  decide-IsReserved cfg plan_id plan wallet x now s {d} {t} h b =
      elim (Result-cases (answered cfg plan wallet x now)) [
        | inl (c, e) ↦ on_decision-IsReserved cfg plan_id plan wallet x now s c (rw e at h) b
        | inr (text, e) ↦ absurd (ground arith)
      ]
