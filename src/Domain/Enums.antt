-- ===== src/Domain/Enums.antt =====
-- The string enumerations of domain/models.py, with their tests.
use market_brain.Prelude.{ℕ, Bool, true, false}

-- `datetime`
abbrev pub Instant : Type 0
Instant = ℕ

-- `timedelta(seconds=1)` and `timedelta(minutes=1)`
abbrev pub second : ℕ
second = 1_000_000

abbrev pub minute : ℕ
minute = 60_000_000

pub data StrategyLane : Type 0 where
  core_momentum event_momentum speculative : StrategyLane

pub data SignalState : Type 0 where
  discovered watch armed buy_now expired invalid no_trade : SignalState

pub data PositionAction : Type 0 where
  hold trim take_profit sell_now unknown_position place_stop_now reconcile_required : PositionAction

pub data ProtectionState : Type 0 where
  protected unprotected : ProtectionState

pub data ReconciliationState : Type 0 where
  reconciled unreconciled missing_at_broker : ReconciliationState

pub data PlanStatus : Type 0 where
  active reserved filled expired cancelled : PlanStatus

abbrev pub is_unprotected : ProtectionState → Bool
is_unprotected ProtectionState.unprotected = true
is_unprotected ProtectionState.protected = false

abbrev pub is_reconciled : ReconciliationState → Bool
is_reconciled ReconciliationState.reconciled = true
is_reconciled _ = false

abbrev pub is_active : PlanStatus → Bool
is_active PlanStatus.active = true
is_active _ = false

abbrev pub is_reserved : PlanStatus → Bool
is_reserved PlanStatus.reserved = true
is_reserved _ = false

abbrev pub is_filled : PlanStatus → Bool
is_filled PlanStatus.filled = true
is_filled _ = false

abbrev pub is_expired : PlanStatus → Bool
is_expired PlanStatus.expired = true
is_expired _ = false

-- `plan.status in {FILLED, CANCELLED, EXPIRED}`
abbrev pub is_finished : PlanStatus → Bool
is_finished PlanStatus.active = false
is_finished PlanStatus.reserved = false
is_finished _ = true
