-- ===== src/Runtime/Monitor/Quiet.antt =====
-- When the monitor of runtime/position_monitor.py speaks of a position, and when it is quiet.
use market_brain.Prelude.{ap, ◌∙◌, ◌≡◌, ◌+◌, ◌<◌, String, true, false, some, arith, eq_iff}
use market_brain.Prelude.Dict.{lookup, insert, lookup-insert_own}
use market_brain.Number.{Double}
use market_brain.Domain.{Instant, PositionAction}
use market_brain.Ledger.Events.{position_evaluated}
use market_brain.Ledger.Store.{Store}
use market_brain.Service.Answers.{log_note, queue_alert}
use market_brain.Service.Trigger.{alert_kind}
use market_brain.Runtime.Monitor.{
  MonitorConfig, Memory, action_name, last_alert, times_or, alert_times, note_alert, is_changed,
  is_repeat_due, report_action,
}

last_alert-note_alert :
    (m : Memory) (id kind : String) (now : Instant)
    → last_alert (note_alert m id kind now) id kind ≡ some now
last_alert-note_alert m id kind now =
    ap (λ o. lookup kind (times_or o))
      (lookup-insert_own id (insert kind now (alert_times m id)) m.last_alert_at)
    ∙ lookup-insert_own kind now (alert_times m id)

module _ {F : Type 0} ⦃num : Double F⦄ (cfg : MonitorConfig F) where
  -- The action is the last one, and no repetition is due.
  report_action-quiet :
      (alert_id id : String) (now : Instant) (action : PositionAction) (m : Memory) (s : Store F)
      {kind : String}
      → alert_kind action ≡ some kind
      → lookup id m.last_action ≡ some (action_name action)
      → is_repeat_due cfg.alert_repeat (last_alert m id kind) now ≡ false
      → report_action cfg alert_id id now action m s ≡ (m, s)
  unfolding report_action
  report_action-quiet alert_id id now action m s {kind} k e r =
      let same : is_changed (lookup id m.last_action) (action_name action) ≡ false =
        ground (arith, eq_iff (action_name action) (action_name action)) in
      ground arith

  -- what a changed action is recorded as
  abbrev pub changed_memory : Memory → String → PositionAction → Memory
  changed_memory m id action = record m {
    last_action = insert id (action_name action) m.last_action;
  }

  report_action-changed :
      (alert_id id : String) (now : Instant) (action : PositionAction) (m : Memory) (s : Store F)
      {kind : String}
      → alert_kind action ≡ some kind
      → is_changed (lookup id m.last_action) (action_name action) ≡ true
      → report_action cfg alert_id id now action m s ≡ (
        note_alert (changed_memory m id action) id kind now,
        queue_alert kind alert_id id now (log_note position_evaluated id now s),
      )
  unfolding report_action
  report_action-changed alert_id id now action m s k e = ground arith

  -- An action that asks for something and is not the last one of its position is logged and alerted
  -- at once, and then it is quiet: as long as the repetition is not due, the same action again
  -- changes neither the memory nor the store, whatever happens to the store in between.
  pub report_action_once :
      (alert_id id : String) (now : Instant) (action : PositionAction) (m : Memory) (s : Store F)
      {kind : String}
      → alert_kind action ≡ some kind
      → is_changed (lookup id m.last_action) (action_name action) ≡ true
      → let (m', s') = report_action cfg alert_id id now action m s in
        (s' ≡ queue_alert kind alert_id id now (log_note position_evaluated id now s))
        × ((later_id : String) (later : Instant) (t : Store F)
            → later < now + cfg.alert_repeat
            → report_action cfg later_id id later action m' t ≡ (m', t))
  report_action_once alert_id id now action m s {kind} k e =
      let first = report_action-changed alert_id id now action m s k e in
      (
        ap (λ (r : Memory × Store F). r.1) first,
        λ later_id later t soon. rw (ap (λ (r : Memory × Store F). r.0) first) (
            report_action-quiet later_id id later action
              (note_alert (changed_memory m id action) id kind now) t k
              (lookup-insert_own id (action_name action) m.last_action)
              (rw (last_alert-note_alert (changed_memory m id action) id kind now) (ground arith))),
      )
