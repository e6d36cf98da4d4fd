-- ===== src/Runtime/Monitor.antt =====
-- runtime/position_monitor.py: what a price does to the open positions and the waiting plans.
pub mod Quiet
use market_brain.Prelude.{
  ℕ, ◌+◌, ◌*◌, String, Bool, true, false, not, ◌||◌, ◌&&◌, Option, none, some, List, [], ◌∷◌,
  if◌then◌else◌, leb, ltb, str_eq, is_some,
}
use market_brain.Prelude.Lists.{select}
use market_brain.Prelude.Dict.{Dict, lookup, insert}
use market_brain.Prelude.Result.{Result, ok, err, ◌>>=◌}
use market_brain.Number.{Double, ◌⊕◌, ◌⊖◌, ◌⊗◌, ◌⊘◌, ◌<?◌, ◌≤?◌, zero_f}
use market_brain.Domain.{
  Instant, TradePlan, PositionState, PositionAction, hold, trim, take_profit, sell_now,
  unknown_position, place_stop_now, reconcile_required, is_active,
}
use market_brain.Ledger.Events.{position_evaluated}
use market_brain.Ledger.Store.{Store}
use market_brain.Service.{Config}
use market_brain.Service.Answers.{log_note, queue_alert}
use market_brain.Service.Trigger.{watch_position, record_trigger_hit, alert_kind}

-- `str(action)`
abbrev pub action_name : PositionAction → String
action_name hold = "HOLD"
action_name trim = "TRIM"
action_name take_profit = "TAKE_PROFIT"
action_name sell_now = "SELL_NOW"
action_name unknown_position = "UNKNOWN_POSITION"
action_name place_stop_now = "PLACE_STOP_NOW"
action_name reconcile_required = "RECONCILE_REQUIRED"

-- _REPEATABLE; _ACTIONABLE is what `alert_kind` names, and HOLD is not in it
abbrev pub is_repeatable : PositionAction → Bool
is_repeatable sell_now = true
is_repeatable place_stop_now = true
is_repeatable _ = false

-- the settings of the monitor, with durations in microseconds
pub record MonitorConfig (F : Type 0) : Type 0 where
  pub config : Config F
  pub min_interval : Instant
  pub alert_repeat : Instant
  pub failed_breakout_buffer_r : F
  pub max_quote_age : Instant

-- A message of a feed, as far as it is read.
pub record Message (F : Type 0) : Type 0 where
  pub p : Option F
  pub bp : Option F
  pub ap : Option F
  pub c : Option F
  -- `none` where it is missing or does not parse
  pub t : Option Instant

-- The memory of the monitor of the positions it has seen.
pub record Memory : Type 0 where
  pub last_eval_at : Dict Instant
  pub last_action : Dict String
  -- by the position, then by the action: the key of the source is the pair
  pub last_alert_at : Dict (Dict Instant)

abbrev pub times_or : Option (Dict Instant) → Dict Instant
times_or none = []
times_or (some times) = times

abbrev pub alert_times : Memory → String → Dict Instant
alert_times m position_id = times_or (lookup position_id m.last_alert_at)

-- `self._last_alert_at.get(alert_key)`
abbrev pub last_alert : Memory → String → String → Option Instant
last_alert m position_id kind = lookup kind (alert_times m position_id)

abbrev pub note_alert : Memory → String → String → Instant → Memory
note_alert m position_id kind now = record m {
  last_alert_at = insert position_id (insert kind now (alert_times m position_id)) m.last_alert_at;
}

-- `previous_eval is not None and (now - previous_eval) < interval`
abbrev pub is_throttled : Instant → Option Instant → Instant → Bool
is_throttled interval none now = false
is_throttled interval (some previous) now = ltb now (previous + interval)

-- `previous_action != action_name`
abbrev pub is_changed : Option String → String → Bool
is_changed none name = true
is_changed (some previous) name = not (str_eq previous name)

-- `last_alert is not None and now - last_alert >= repeat`
abbrev pub is_repeat_due : Instant → Option Instant → Instant → Bool
is_repeat_due repeat none now = false
is_repeat_due repeat (some last) now = leb (last + repeat) now

module _ {F : Type 0} ⦃num : Double F⦄ where
  -- `_failed_breakout`
  unfoldable pub failed_breakout : MonitorConfig F → Option (TradePlan F) → F → Bool
  failed_breakout cfg none last = false
  failed_breakout cfg (some plan) last = elim plan.stop [
    | none ↦ false
    | some stop ↦
        let r_value = plan.entry_trigger ⊖ stop in
        if r_value ≤? zero_f
        then false
        else last <? plan.entry_trigger ⊖ cfg.failed_breakout_buffer_r ⊗ r_value
  ]

  -- `vwap is not None and last < vwap`
  abbrev pub is_below_vwap : Option F → F → Bool
  is_below_vwap none last = false
  is_below_vwap (some vwap) last = last <? vwap

  abbrev pub note_change : Bool → String → Instant → Store F → Store F
  note_change changed position_id now s =
      if changed then log_note position_evaluated position_id now s else s

  -- the alert, where it is queued
  abbrev pub queue_if :
      Bool → String → String → String → Instant → Memory → Store F → Memory × Store F
  queue_if due kind alert_id position_id now m s =
      if due
      then (note_alert m position_id kind now, queue_alert kind alert_id position_id now s)
      else (m, s)

  -- what follows the evaluation of a position
  unfoldable pub report_action :
      MonitorConfig F
      → String
      → String
      → Instant
      → PositionAction
      → Memory
      → Store F
      → Memory × Store F
  unfolding lookup insert
  report_action cfg alert_id position_id now action m s =
      let name = action_name action in
      let changed = is_changed (lookup position_id m.last_action) name in
      let noted =
        if changed then record m { last_action = insert position_id name m.last_action } else m in
      let s' = note_change changed position_id now s in
      elim (alert_kind action) [
        | none ↦ (noted, s')
        | some kind ↦
            let repeat_due =
              is_repeatable action
              && is_repeat_due cfg.alert_repeat (last_alert noted position_id kind) now in
            queue_if (changed || repeat_due) kind alert_id position_id now noted s'
      ]

  -- one round of `_handle_position`; `plan` is the cached plan of the position
  unfoldable pub watch_one :
      MonitorConfig F
      → Option (TradePlan F)
      → Option F
      → F
      → Instant
      → String
      → PositionState F
      → Memory
      → Store F
      → Result (Memory × Store F)
  unfolding failed_breakout report_action watch_position
  watch_one cfg plan vwap last now alert_id position m s =
      if is_throttled cfg.min_interval (lookup position.position_id m.last_eval_at) now
      then ok (m, s)
      else do
        (action, s') ←
            watch_position cfg.config position.position_id last (is_below_vwap vwap last)
              (leb position.opened_at now && failed_breakout cfg plan last) false false alert_id now
              s
        ok (
            report_action cfg alert_id position.position_id now action
              (record m { last_eval_at = insert position.position_id now m.last_eval_at }) s')

  -- both sides of a quote, where they are positive
  abbrev pub mid_of : Option F → Option F → Option F
  mid_of none ask = none
  mid_of (some bid) none = none
  mid_of (some bid) (some ask) =
      if zero_f <? bid && zero_f <? ask then some ((bid ⊕ ask) ⊘ num.lit 2 0) else none

  -- `_price`: the trade, the middle of the quote, the close
  unfoldable pub price_of : Message F → Option F
  price_of message = elim message.p [
    | some p ↦ some p
    | none ↦ elim (mid_of message.bp message.ap) [ some mid ↦ some mid | none ↦ message.c ]
  ]

  -- `_fresh_quote`
  abbrev pub fresh_quote : MonitorConfig F → Message F → Instant → Bool
  fresh_quote cfg message now = elim message.t [
    | none ↦ false
    | some stamp ↦ leb stamp now && leb now (stamp + cfg.max_quote_age)
  ]

  -- a plan of the cache that the price has crossed upwards
  abbrev pub is_crossed : TradePlan F → F → F → Instant → Bool
  is_crossed plan previous last now = not (
      not (is_active plan.status)
      || (is_some plan.triggered_at
          || (ltb plan.expires_at now
              || not (previous <? plan.entry_trigger && plan.entry_trigger ≤? last))))

  -- the loop of `_handle_trigger`: the plans that it leaves in the cache
  unfoldable pub trigger_all :
      MonitorConfig F
      → F
      → F
      → Instant
      → (String → String)
      → List (TradePlan F)
      → List (TradePlan F)
      → Store F
      → Result (List (TradePlan F) × Store F)
  unfolding record_trigger_hit select
  trigger_all cfg previous last now alert_of [] cached s = ok (cached, s)
  trigger_all cfg previous last now alert_of (plan ∷ plans) cached s =
      elim (is_crossed plan previous last now) [
        | false ↦ trigger_all cfg previous last now alert_of plans cached s
        | true ↦ do
          (hit, s') ← record_trigger_hit cfg.config plan.plan_id (alert_of plan.plan_id) now s
          trigger_all cfg previous last now alert_of plans
              (select (λ (row : TradePlan F). not (str_eq row.plan_id plan.plan_id)) cached) s'
      ]
