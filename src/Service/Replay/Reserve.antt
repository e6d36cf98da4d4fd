-- ===== src/Service/Replay/Reserve.antt =====
-- `_activate_with_context` of orchestration/service.py against the ledger, and the alerts.
use market_brain.Prelude.{refl, String, Option, none, some, leb, not, ◌||◌}
use market_brain.Prelude.Dict.{Keyed-insert}
use market_brain.Number.{Double}
use market_brain.Domain.{
  Instant, TradePlan, WalletState, Reservation, ActivationDecision, PlanStatus, AlertRecord,
}
use market_brain.Ledger.Events.{plan_evaluated, buy_now_emitted}
use market_brain.Ledger.Store.{
  Store, save_plan, save_wallet, save_reservation, save_alert, get_reservation,
}
use market_brain.Ledger.Replay.{apply_event}
use market_brain.Service.Action.{
  Config, Settles, returns, raises, settle_or_raise, settle_bind, settle_if,
}
use market_brain.Service.Answers.{
  Sample, log_note, is_buy, has_levels, on_held, is_at_limit, is_untrusted,
}
use market_brain.Service.Activate.{
  reserve, charged_wallet, on_decision, decide, on_wallet, on_reservation, refreshed,
}
use market_brain.Service.Replay.Consistent.{IsKeyed, Keeps, plan_key, reservation_key}
use market_brain.Service.Replay.Writes.{Keeps-refl, Keeps-trans, log-Keeps, note-Keeps}
use market_brain.Service.Replay.Sweep.{release_reservation-Keeps}

module _ {F : Type 0} ⦃num : Double F⦄ where
  -- A replay does not read the alerts.
  pub alert-Keeps : (alert : AlertRecord) {s t : Store F} → Keeps s t → Keeps s (save_alert alert t)
  alert-Keeps alert k = record {
    keyed = k.keyed;
    logs = record { added = k.logs.added; events = k.logs.events; told = k.logs.told };
  }

  evaluated-Keeps :
      (id : String) (now : Instant) (s : Store F)
      → IsKeyed s
      → Keeps s (log_note plan_evaluated id now s)
  unfolding apply_event
  evaluated-Keeps id now s h = note-Keeps _ s h refl

  emitted-Keeps :
      (id : String) (now : Instant) {s t : Store F}
      → Keeps s t
      → Keeps s (log_note buy_now_emitted id now t)
  unfolding apply_event
  emitted-Keeps id now {s} {t} k = Keeps-trans k (note-Keeps _ t k.keyed refl)

  reserve-Keeps :
      (plan_id : String) (plan : TradePlan F) (held : Reservation F) (wallet : WalletState F)
      (alert_id : String) (now : Instant) (s : Store F)
      → IsKeyed s
      → Keeps s (reserve plan_id plan held wallet alert_id now s)
  unfolding apply_event
  reserve-Keeps plan_id plan held wallet alert_id now s h =
      let kept = record plan { status = PlanStatus.reserved } in
      let t =
        save_plan kept (save_reservation held (save_wallet (charged_wallet held now wallet) s)) in
      emitted-Keeps plan_id now (
        alert-Keeps _ (
          log-Keeps _ s t
            (
              Keyed-insert plan_key kept s.plans h.0,
              Keyed-insert reservation_key held s.reservations h.1,
              h.2,
            )
            refl refl))

  on_decision-Keeps :
      (cfg : Config F) (plan_id : String) (plan : TradePlan F) (wallet : WalletState F)
      (x : Sample F) (now : Instant) (s t : Store F) (d : ActivationDecision F)
      → Keeps s t
      → IsKeyed s
      → Settles (Keeps s) s (on_decision cfg plan_id plan wallet x now t d)
  on_decision-Keeps cfg plan_id plan wallet x now s t d k h =
      let start = Keeps-refl s h in
      let noted = Keeps-trans k (evaluated-Keeps plan_id now t k.keyed) in
      settle_if (is_buy d.state) _ _
        (λ b. settle_or_raise start plan.stop "TypeError" _ (λ stop e.
          settle_if (has_levels plan) _ _
            (λ l. returns _ _ (
              Keeps-trans noted (reserve-Keeps plan_id plan _ wallet x.alert_id now _ noted.keyed)))
            (λ l. raises start)))
        (λ b. returns _ _ noted)

  decide-Keeps :
      (cfg : Config F) (plan_id : String) (plan : TradePlan F) (wallet : WalletState F)
      (x : Sample F) (now : Instant) (s t : Store F)
      → Keeps s t
      → IsKeyed s
      → Settles (Keeps s) s (decide cfg plan_id plan wallet x now t)
  unfolding decide
  decide-Keeps cfg plan_id plan wallet x now s t k h =
      settle_bind (Keeps-refl s h) _ _
        (λ d e. on_decision-Keeps cfg plan_id plan wallet x now s t d k h)

  on_held-Keeps :
      (cfg : Config F) (plan_id : String) (plan : TradePlan F) (held : Reservation F) (x : Sample F)
      (now : Instant) (s : Store F)
      → IsKeyed s
      → Settles (Keeps s) s (on_held plan_id plan held x now s)
  on_held-Keeps cfg plan_id plan held x now s h =
      let start = Keeps-refl s h in
      let q = alert-Keeps _ start in
      settle_if (not x.retest_valid || is_untrusted x.snapshot) _ _
        (λ b. returns _ _ (evaluated-Keeps plan_id now s h))
        (λ b.
          settle_if (has_levels plan) _ _
            (λ l.
              returns _ _
                (emitted-Keeps plan_id now (Keeps-trans q (evaluated-Keeps plan_id now _ q.keyed))))
            (λ l. raises start))

  refreshed-Keeps :
      (cfg : Config F) (plan_id : String) (plan : TradePlan F) (x : Sample F) (now : Instant)
      (s t : Store F) (wallet : Option (WalletState F))
      → Keeps s t
      → IsKeyed s
      → Settles (Keeps s) s (refreshed cfg plan_id plan x now t wallet)
  refreshed-Keeps cfg plan_id plan x now s t none k h = raises (Keeps-refl s h)
  refreshed-Keeps cfg plan_id plan x now s t (some freed) k h =
      decide-Keeps cfg plan_id plan freed x now s t k h

  on_reservation-Keeps :
      (cfg : Config F) (plan_id : String) (plan : TradePlan F) (wallet : WalletState F)
      (x : Sample F) (now : Instant) (s : Store F) (row : Option (Reservation F))
      → IsKeyed s
      → Settles (Keeps s) s (on_reservation cfg plan_id plan wallet x now s row)
  on_reservation-Keeps cfg plan_id plan wallet x now s none h =
      decide-Keeps cfg plan_id plan wallet x now s s (Keeps-refl s h) h
  on_reservation-Keeps cfg plan_id plan wallet x now s (some held) h =
      let released = release_reservation-Keeps plan_id "RESERVATION_EXPIRED" now s h in
      settle_if (leb now held.expires_at) _ _ (λ b. on_held-Keeps cfg plan_id plan held x now s h)
        (λ b. refreshed-Keeps cfg plan_id plan x now s _ _ released h)

  pub on_wallet-Keeps :
      (cfg : Config F) (plan_id : String) (plan : TradePlan F) (wallet : WalletState F)
      (x : Sample F) (now : Instant) (s : Store F)
      → IsKeyed s
      → Settles (Keeps s) s (on_wallet cfg plan_id plan wallet x now s)
  unfolding on_wallet
  on_wallet-Keeps cfg plan_id plan wallet x now s h =
      settle_if (is_at_limit cfg plan_id s) _ _
        (λ b.
          returns _ _
            (release_reservation-Keeps plan_id "MAX_CONCURRENT_POSITIONS_REACHED" now s h))
        (λ b. on_reservation-Keeps cfg plan_id plan wallet x now s (get_reservation plan_id s) h)
