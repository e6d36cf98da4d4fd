-- ===== src/Service/Calls.antt =====
-- A session of calls on the service of orchestration/service.py, one transaction after another.
use market_brain.Prelude.{ℕ, String, Bool, Option, List, [], ◌∷◌}
use market_brain.Number.{Double}
use market_brain.Domain.{Instant, TradePlan}
use market_brain.Ledger.Store.{Store}
use market_brain.Service.Action.{Config, committed}
use market_brain.Service.Wallet.{seed_wallet, reconcile_wallet}
use market_brain.Service.Import.{Import, import_position}
use market_brain.Service.Exit.{protect_position, confirm_exit}
use market_brain.Service.Holdings.{Holding, reconcile_holdings}
use market_brain.Service.Checks.{Fill}
use market_brain.Service.Fill.{confirm_fill}
use market_brain.Service.Answers.{Sample}
use market_brain.Service.Trigger.{issue_plan, record_trigger_hit, watch_position, activate}
use market_brain.Service.Capacity.{sweep_expired, release_reservation}

-- A call with its arguments, the readings of the clock and the random identifiers included.
pub data Call (F : Type 0) : Type 0 where
  seed : F → F → Instant → Call F
  reconcile : F → F → F → Instant → Call F
  import_ : Import F → Instant → Call F
  issue : TradePlan F → Call F
  hit : String → String → Instant → Call F
  activate_ : String → Option (Sample F) → Instant → Call F
  release_ : String → String → Instant → Call F
  sweep : Instant → Call F
  fill_ : Fill F → Instant → Instant → Instant → Call F
  protect : String → F → Option String → Instant → Call F
  watch_ : String → F → Bool → Bool → Bool → Bool → String → Instant → Call F
  -- the holdings of the broker, with `str.strip`
  holdings_ : (String → String) → List Holding → Instant → Call F
  exit_ : String → F → ℕ → Instant → Call F

module _ {F : Type 0} ⦃num : Double F⦄ where
  -- the store after the call, which is the old one where a transaction is rolled back
  unfoldable pub run_call : Config F → Call F → Store F → Store F
  run_call cfg (seed capital cash now) s = committed s (seed_wallet capital cash now s)
  run_call cfg (reconcile capital cash loss now) s =
      committed s (reconcile_wallet capital cash loss now s)
  run_call cfg (import_ i now) s = committed s (import_position cfg i now s)
  run_call cfg (issue plan) s = issue_plan plan s
  run_call cfg (hit plan_id alert_id at) s =
      committed s (record_trigger_hit cfg plan_id alert_id at s)
  run_call cfg (activate_ plan_id x now) s =
      committed (activate cfg plan_id x now s).0 (activate cfg plan_id x now s).1
  run_call cfg (release_ plan_id reason now) s = (release_reservation plan_id reason now s).1
  run_call cfg (sweep now) s = (sweep_expired now s).1
  run_call cfg (fill_ fill sweep_at checked_at now) s =
      committed s (confirm_fill cfg fill sweep_at checked_at now s)
  run_call cfg (protect position_id price ref now) s =
      committed s (protect_position cfg position_id price ref now s)
  run_call cfg (watch_ position_id last below_vwap failed_breakout record_event queues alert_id now)
        s =
      committed s (
        watch_position cfg position_id last below_vwap failed_breakout record_event queues alert_id
          now s)
  run_call cfg (exit_ position_id price quantity now) s =
      committed s (confirm_exit position_id price quantity now s)
  run_call cfg (holdings_ strip holdings now) s =
      committed s (reconcile_holdings cfg strip holdings now s)

  unfoldable pub run_calls : Config F → List (Call F) → Store F → Store F
  run_calls cfg [] s = s
  run_calls cfg (call ∷ calls) s = run_calls cfg calls (run_call cfg call s)
