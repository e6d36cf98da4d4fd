-- ===== src/Service/Replay/Signals.antt =====
-- The methods of orchestration/service.py on plans and signals against the ledger.
use market_brain.Prelude.{
  ◌≡◌, refl, String, Bool, true, false, Option, none, some, ◌||◌, if◌then◌else◌, is_some, ltb,
}
use market_brain.Prelude.Dict.{Keyed-insert, insert-insert}
use market_brain.Number.{Double}
use market_brain.Domain.{Instant, TradePlan, WalletState, is_expired, is_filled}
use market_brain.Ledger.Events.{position_evaluated}
use market_brain.Ledger.Store.{Store, save_plan, get_plan}
use market_brain.Ledger.Replay.{apply_event}
use market_brain.Service.Action.{Config, Settles, returns, raises, settle_bind, settle_if}
use market_brain.Service.Answers.{Sample, log_note, queue_alert}
use market_brain.Service.Activate.{on_plan, activate_with_context}
use market_brain.Service.Trigger.{
  issue_plan, hit_plan, is_waiting, log_trigger, check_ticket, triggered, alert_action,
  activate_swept,
}
use market_brain.Service.Replay.Consistent.{IsKeyed, Keeps, plan_key}
use market_brain.Service.Replay.Writes.{Keeps-refl, log-Keeps, note-Keeps}
use market_brain.Service.Replay.Reserve.{alert-Keeps, on_wallet-Keeps}

module _ {F : Type 0} ⦃num : Double F⦄ where
  pub issue_plan-Keeps :
      (plan : TradePlan F) (s : Store F) → IsKeyed s → Keeps s (issue_plan plan s)
  unfolding apply_event
  issue_plan-Keeps plan s h =
      log-Keeps _ s (save_plan plan s) (Keyed-insert plan_key plan s.plans h.0, h.1, h.2) refl
        (rw (insert-insert plan.plan_id plan plan s.plans) refl)

  log_trigger-Keeps :
      (plan : TradePlan F) (alert_id : String) (at : Instant) (s : Store F)
      → IsKeyed s
      → Keeps s (log_trigger plan alert_id at s)
  unfolding apply_event
  log_trigger-Keeps plan alert_id at s h =
      log-Keeps _ s (queue_alert "TRIGGER_HIT" alert_id plan.plan_id at (save_plan plan s))
        (Keyed-insert plan_key plan s.plans h.0, h.1, h.2) refl refl

  pub hit_plan-Keeps :
      (cfg : Config F) (alert_id : String) (at : Instant) (o : Option (TradePlan F)) (s : Store F)
      → IsKeyed s
      → Settles (Keeps s) s (hit_plan cfg alert_id at o s)
  hit_plan-Keeps cfg alert_id at none s h = returns _ _ (Keeps-refl s h)
  hit_plan-Keeps cfg alert_id at (some plan) s h =
      let start = Keeps-refl s h in
      settle_if (is_waiting at plan) _ _
        (λ _.
          settle_bind start (check_ticket cfg (triggered cfg at plan) s.wallet) _
            (λ _ _. returns _ _ (log_trigger-Keeps (triggered cfg at plan) alert_id at s h)))
        (λ _. returns _ _ start)

  alerted-Keeps :
      (kind : Option String) (alert_id id : String) (now : Instant) {s t : Store F}
      → Keeps s t
      → Keeps s (alert_action kind alert_id id now t)
  alerted-Keeps none alert_id id now k = k
  alerted-Keeps (some kind) alert_id id now k = alert-Keeps _ k

  pub noted-Keeps :
      (b : Bool) (id : String) (now : Instant) (s : Store F)
      → IsKeyed s
      → Keeps s (if b then log_note position_evaluated id now s else s)
  unfolding apply_event
  noted-Keeps true id now s h = note-Keeps _ s h refl
  noted-Keeps false id now s h = Keeps-refl s h

  pub queued-Keeps :
      (b : Bool) (kind : Option String) (alert_id id : String) (now : Instant) {s t : Store F}
      → Keeps s t
      → Keeps s (if b then alert_action kind alert_id id now t else t)
  queued-Keeps true kind alert_id id now k = alerted-Keeps kind alert_id id now k
  queued-Keeps false kind alert_id id now k = k

  on_plan-Keeps :
      (cfg : Config F) (plan_id : String) (x : Sample F) (now : Instant) (s : Store F)
      (plan : TradePlan F) (wallet : Option (WalletState F))
      → IsKeyed s
      → (is_expired plan.status || ltb plan.expires_at now) ≡ false
      → Settles (Keeps s) s (on_plan cfg plan_id x now s (some plan) wallet)
  on_plan-Keeps cfg plan_id x now s plan none h e = rw e (returns _ _ (Keeps-refl s h))
  on_plan-Keeps cfg plan_id x now s plan (some wallet) h e = rw e (
      settle_if (is_filled plan.status) _ _ (λ _. returns _ _ (Keeps-refl s h))
        (λ _. on_wallet-Keeps cfg plan_id plan wallet x now s h))

  pub activate_swept-Keeps :
      (cfg : Config F) (plan_id : String) (x : Option (Sample F)) (now : Instant) (s : Store F)
      (o : Option (TradePlan F))
      → IsKeyed s
      → get_plan plan_id s ≡ o
      → Settles (Keeps s) s (activate_swept cfg plan_id x now s o)
  unfolding activate_with_context
  activate_swept-Keeps cfg plan_id x now s none h e = returns _ _ (Keeps-refl s h)
  activate_swept-Keeps cfg plan_id none now s (some plan) h e =
      let start = Keeps-refl s h in
      settle_if (is_expired plan.status || ltb plan.expires_at now) _ _ (λ _. returns _ _ start)
        (λ _.
          settle_if (is_filled plan.status) _ _ (λ _. returns _ _ start)
            (λ _. settle_if (is_some s.wallet) _ _ (λ _. raises start) (λ _. returns _ _ start)))
  activate_swept-Keeps cfg plan_id (some x) now s (some plan) h e =
      let start = Keeps-refl s h in
      settle_if (is_expired plan.status || ltb plan.expires_at now) _ _ (λ _. returns _ _ start)
        (λ current.
          settle_if (is_filled plan.status) _ _ (λ _. returns _ _ start)
            (λ _.
              settle_if (is_some s.wallet) _ _
                (λ _. rw e (on_plan-Keeps cfg plan_id x now s plan s.wallet h current))
                (λ _. returns _ _ start)))
