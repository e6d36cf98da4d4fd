-- ===== src/Service/Replay/Session.antt =====
-- Sessions of calls on orchestration/service.py against ledger/replay.py.
use market_brain.Prelude.{◌≡◌, refl, List, [], ◌∷◌}
use market_brain.Prelude.Result.{ok}
use market_brain.Number.{Double}
use market_brain.Ledger.Store.{Store, empty_store, get_plan, get_position}
use market_brain.Ledger.Replay.{apply_events, rebuild_state, view}
use market_brain.Ledger.Replay.Append.{IsReplayable, Logs}
use market_brain.Engines.Position.{evaluate_position}
use market_brain.Service.Action.{Config}
use market_brain.Service.Trigger.{record_trigger_hit, watch_position, alert_kind, activate}
use market_brain.Service.Capacity.{sweep_expired}
use market_brain.Service.Calls.{
  Call, seed, reconcile, import_, issue, hit, activate_, release_, sweep, fill_, protect, watch_,
  exit_, holdings_, run_call, run_calls,
}
use market_brain.Service.Replay.Consistent.{IsKeyed, IsConsistent, Keeps, Keeps-IsConsistent}
use market_brain.Service.Replay.Writes.{Keeps-trans}
use market_brain.Service.Replay.Sweep.{release_reservation-Keeps, sweep_expired-Keeps}
use market_brain.Service.Replay.Reconcile.{reconcile_holdings-Keeps}
use market_brain.Service.Replay.Fills.{confirm_fill-Keeps}
use market_brain.Service.Replay.Money.{
  seed_wallet-Keeps, reconcile_wallet-Keeps, import_position-Keeps, protect_position-Keeps,
  confirm_exit-Keeps,
}
use market_brain.Service.Replay.Signals.{
  issue_plan-Keeps, hit_plan-Keeps, noted-Keeps, queued-Keeps, activate_swept-Keeps,
}

module _ {F : Type 0} ⦃num : Double F⦄ where
  run_call-Keeps :
      (cfg : Config F) (call : Call F) (s : Store F) → IsKeyed s → Keeps s (run_call cfg call s)
  unfolding run_call record_trigger_hit watch_position activate
  run_call-Keeps cfg (seed capital cash now) s h = (seed_wallet-Keeps capital cash now s h).holds
  run_call-Keeps cfg (reconcile capital cash loss now) s h =
      (reconcile_wallet-Keeps capital cash loss now s h).holds
  run_call-Keeps cfg (import_ i now) s h = (import_position-Keeps cfg i now s h).holds
  run_call-Keeps cfg (issue plan) s h = issue_plan-Keeps plan s h
  run_call-Keeps cfg (hit plan_id alert_id at) s h =
      (hit_plan-Keeps cfg alert_id at (get_plan plan_id s) s h).holds
  run_call-Keeps cfg (activate_ plan_id x now) s h =
      let k = sweep_expired-Keeps now s h in
      let t = (sweep_expired now s).1 in
      Keeps-trans k
        (activate_swept-Keeps cfg plan_id x now t (get_plan plan_id t) k.keyed refl).holds
  run_call-Keeps cfg (release_ plan_id reason now) s h =
      release_reservation-Keeps plan_id reason now s h
  run_call-Keeps cfg (sweep now) s h = sweep_expired-Keeps now s h
  run_call-Keeps cfg (fill_ fill sweep_at checked_at now) s h =
      (confirm_fill-Keeps cfg fill sweep_at checked_at now s h).holds
  run_call-Keeps cfg (protect position_id price ref now) s h =
      (protect_position-Keeps cfg position_id price ref now s h).holds
  run_call-Keeps cfg (watch_ position_id last below failed recorded queues alert_id now) s h =
      let action =
        evaluate_position (get_position position_id s) last below failed cfg.reconciliation_max_age
          now in
      queued-Keeps queues (alert_kind action) alert_id position_id now
        (noted-Keeps recorded position_id now s h)
  run_call-Keeps cfg (exit_ position_id price quantity now) s h =
      (confirm_exit-Keeps position_id price quantity now s h).holds
  run_call-Keeps cfg (holdings_ strip holdings now) s h =
      (reconcile_holdings-Keeps cfg strip holdings now s h).holds

  -- A call of the service on a consistent store leaves a consistent store, whether it returns or
  -- raises: every row stands under its own key, and the ledger rebuilds the tables.
  pub run_call-IsConsistent :
      (cfg : Config F) (call : Call F) (s : Store F)
      → IsConsistent s
      → IsConsistent (run_call cfg call s)
  run_call-IsConsistent cfg call s h = Keeps-IsConsistent (run_call-Keeps cfg call s h.keyed) h

  -- A call on a store whose rows stand under their own keys only appends to the ledger, whether it
  -- returns or raises, and what it appends takes the tables before the call to those after it.
  pub run_call-Logs :
      (cfg : Config F) (call : Call F) (s : Store F) → IsKeyed s → Logs s (run_call cfg call s)
  run_call-Logs cfg call s h = (run_call-Keeps cfg call s h).logs

  run_calls-IsConsistent :
      (cfg : Config F) (calls : List (Call F)) (s : Store F)
      → IsConsistent s
      → IsConsistent (run_calls cfg calls s)
  unfolding run_calls
  run_calls-IsConsistent cfg [] s h = h
  run_calls-IsConsistent cfg (call ∷ calls) s h =
      run_calls-IsConsistent cfg calls (run_call cfg call s) (run_call-IsConsistent cfg call s h)

  empty_store-IsConsistent : IsConsistent {F = F} empty_store
  unfolding IsReplayable rebuild_state apply_events
  empty_store-IsConsistent = record { keyed = (tt, tt, tt); replayable = refl }

  -- After any session of calls on an empty store, those that raise included, rebuilding the state
  -- from the ledger succeeds and gives the wallet, plans, reservations and positions of the store.
  pub rebuild_state-run_calls :
      (cfg : Config F) (calls : List (Call F))
      → rebuild_state (run_calls cfg calls empty_store).events
        ≡ ok (view (run_calls cfg calls empty_store))
  unfolding IsReplayable
  rebuild_state-run_calls cfg calls =
      (run_calls-IsConsistent cfg calls empty_store empty_store-IsConsistent).replayable
