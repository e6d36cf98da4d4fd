-- ===== src/Tests/Session.antt =====
-- A session of the service, from the seed of the wallet to the exit, and the theorems on it.
use market_brain.Prelude.{
  ◌≡◌, refl, ◌+◌, ◌<◌, ◌≤◌, ◌⊎◌, is_some, true, false, Option, some, List, [], ◌∷◌,
}
use market_brain.Prelude.Dict.{lookup, insert, erase, values}
use market_brain.Prelude.Lists.{All, select, first, any}
use market_brain.Domain.{
  Instant, ActivationDecision, PositionState, PlanStatus, buy_now, is_finished,
}
use market_brain.Prelude.Result.{ok}
use market_brain.Number.{Cents, cents_double, Cents-IsOrdered}
use market_brain.Ledger.Store.{Store, empty_store, get_position}
use market_brain.Ledger.Replay.{rebuild_state, apply_events, view}
use market_brain.Ledger.Replay.Append.{IsReplayable, Logs}
use market_brain.Ledger.Events.{plan_evaluated}
use market_brain.Engines.Activation.{activate_plan, activation_reasons}
use market_brain.Engines.Wallet.{size_from_wallet, size_on_terms, fit_quantity}
use market_brain.Engines.Liquidity.{dedupe, is_keyless_source}
use market_brain.Service.Calls.{
  Call, seed, import_, issue, activate_, fill_, exit_, holdings_, release_, run_call, run_calls,
}
use market_brain.Service.Replay.Session.{
  rebuild_state-run_calls, run_call-IsConsistent, run_call-Logs,
}
use market_brain.Service.Replay.{IsConsistent}
use market_brain.Service.Capacity.{
  release_reservation, release, sweep_expired, sweep_plans, sweep_reservations,
}
use market_brain.Service.Wallet.{reconcile_wallet, sum_risk, open_positions}
use market_brain.Service.Wallet.Stops.{reconcile_wallet-All}
use market_brain.Service.Overdue.{sweep_expired-expires_at}
use market_brain.Service.Capacity.Freed.{IsReleased, release_reservation-IsReleased}
use market_brain.Service.Checks.{check_reservation, check_price, check_limits}
use market_brain.Service.Fill.{confirm_fill, fill_reserved}
use market_brain.Service.Fill.Drawing.{IsCovered, confirm_fill-IsCovered}
use market_brain.Service.Answers.{log_note}
use market_brain.Service.Activate.{decide, answered, reserve}
use market_brain.Service.Activate.Reserving.{IsReserved, decide-IsReserved}
use market_brain.Service.Exit.{confirm_exit}
use market_brain.Service.Exit.Closing.{confirm_exit-remaining_quantity}
use market_brain.Tests.Data.{usd, config, plan, wallet, held, position, sample, fill, import_other}

abbrev session : List (Call Cents)
session =
    seed (usd 10000) (usd 10000) 0
    ∷ issue plan
    ∷ activate_ "p1" (some sample) 0
    ∷ fill_ fill 0 0 0
    ∷ import_ import_other 0
    ∷ exit_ "q1" (usd 105) 3 0
    ∷ holdings_ (λ text. text) (record { symbol = "ACME"; quantity = 5 } ∷ []) 0
    ∷ release_ "p1" "MANUAL" 0
    ∷ []

rebuild_state-run_calls_example :
    rebuild_state (run_calls config session empty_store).events
    ≡ ok (view (run_calls config session empty_store))
rebuild_state-run_calls_example = rebuild_state-run_calls config session

-- The stores behind the seed and the plan, and behind the BUY_NOW.
abbrev issued_store : Store Cents
issued_store = record empty_store { wallet = some wallet; plans = ("p1", plan) ∷ [] }

abbrev reserved_store : Store Cents
reserved_store = record issued_store {
  wallet = some (record wallet { reserved_cash = usd 2020; open_risk = usd 100; version = 2 });
  plans = ("p1", record plan { status = PlanStatus.reserved }) ∷ [];
  reservations = ("p1", held) ∷ [];
}

abbrev opened_store : Store Cents
opened_store = record issued_store { positions = ("q1", position) ∷ [] }

empty_store-IsConsistent : IsConsistent {F = Cents} empty_store
unfolding IsReplayable rebuild_state apply_events
empty_store-IsConsistent = record { keyed = (tt, tt, tt); replayable = refl }

run_call-IsConsistent_example :
    IsConsistent (run_call config (seed (usd 10000) (usd 10000) 0) empty_store)
run_call-IsConsistent_example =
    run_call-IsConsistent config (seed (usd 10000) (usd 10000) 0) empty_store
      empty_store-IsConsistent

run_call-Logs_example : Logs reserved_store (run_call config (fill_ fill 0 0 0) reserved_store)
unfolding lookup
run_call-Logs_example =
    run_call-Logs config (fill_ fill 0 0 0) reserved_store ((refl, refl, tt), (refl, refl, tt), tt)

confirm_fill-IsCovered_example : IsCovered fill 0 (sweep_expired 0 reserved_store).1
unfolding confirm_fill fill_reserved check_reservation check_price check_limits sweep_expired
    sweep_plans sweep_reservations lookup values select first
confirm_fill-IsCovered_example = confirm_fill-IsCovered config fill 0 0 0 reserved_store refl

abbrev some_instant : Instant → Option Instant
some_instant at = some at

confirm_exit-remaining_quantity_example :
    (p : PositionState Cents) × (get_position "q1" opened_store ≡ some p)
    × (0 < 20)
    × (0 + 20 ≡ p.remaining_quantity)
    × (some_instant 7 ≡ some 7)
unfolding confirm_exit lookup
confirm_exit-remaining_quantity_example =
    confirm_exit-remaining_quantity "q1" (usd 105) 20 7 opened_store refl

-- `decide` on the issued_store plan answers BUY_NOW.
abbrev decided : ActivationDecision Cents × Store Cents
decided = (
  record {
    plan_id = "p1";
    symbol = "ACME";
    state = buy_now;
    reasons = [];
    quantity = 20;
    entry = some (usd 100);
    stop = some (usd 95);
    tp1 = some (usd 110);
    tp2 = some (usd 120);
  },
  reserve "p1" plan held wallet "a1" 0 (log_note plan_evaluated "p1" 0 issued_store),
)

decide-IsReserved_example : IsReserved config "p1" plan wallet 0 decided.0 decided.1
unfolding decide answered activate_plan activation_reasons size_from_wallet size_on_terms
    fit_quantity dedupe is_keyless_source
decide-IsReserved_example =
    decide-IsReserved config "p1" plan wallet sample 0 issued_store {d = decided.0} {t = decided.1}
      refl refl

release_reservation-IsReleased_example :
    (release_reservation "p1" "MANUAL" 0 reserved_store ≡ (false, reserved_store))
    ⊎ ((release_reservation "p1" "MANUAL" 0 reserved_store).0 ≡ true)
      × IsReleased "p1" 0 reserved_store (release_reservation "p1" "MANUAL" 0 reserved_store).1
release_reservation-IsReleased_example =
    release_reservation-IsReleased Cents-IsOrdered "p1" "MANUAL" 0 reserved_store

-- a sweep an hour after the deadline of the plan
sweep_expired-expires_at_example :
    (is_finished PlanStatus.expired ≡ true) ⊎ (5_000_000_000 ≤ plan.expires_at)
unfolding lookup values insert erase any sweep_expired sweep_plans sweep_reservations
    release_reservation release
sweep_expired-expires_at_example =
    sweep_expired-expires_at 5_000_000_000 reserved_store ((refl, refl, tt), (refl, refl, tt), tt)
      "p1" (record plan { status = PlanStatus.expired }) refl

reconcile_wallet-All_example :
    All (λ (row : PositionState Cents). is_some row.stop ≡ true) (open_positions opened_store)
unfolding reconcile_wallet sum_risk select values
reconcile_wallet-All_example =
    reconcile_wallet-All (usd 10000) (usd 8000) (usd 0) 0 opened_store refl
