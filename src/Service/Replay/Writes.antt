-- ===== src/Service/Replay/Writes.antt =====
-- The writes of orchestration/service.py, each with the event that tells them.
use market_brain.Prelude.{◌≡◌, refl, String, Bool, true, false, [], ◌∷◌}
use market_brain.Prelude.Dict.{insert-insert, Keyed-insert}
use market_brain.Prelude.Result.{ok}
use market_brain.Number.{Double}
use market_brain.Domain.{Instant, TradePlan, WalletState, PositionState, PlanStatus}
use market_brain.Ledger.Events.{
  LedgerEvent, event_of, position_payload, wallet_seeded, wallet_reconciled, stop_order_confirmed,
  exit_confirmed, position_imported,
}
use market_brain.Ledger.Store.{Store, append, save_wallet, save_position, save_plan}
use market_brain.Ledger.Replay.{apply_event, apply_events, view}
use market_brain.Ledger.Replay.Append.{Logs-refl, Logs-trans}
use market_brain.Service.Wallet.{log_wallet, wallet_event}
use market_brain.Service.Exit.{log_position}
use market_brain.Service.Import.{notice, unprotected_event}
use market_brain.Service.Capacity.{expire_plan}
use market_brain.Service.Replay.Consistent.{IsKeyed, Keeps, position_key, plan_key}

module _ {F : Type 0} ⦃num : Double F⦄ where
  pub Keeps-trans : {s t u : Store F} → Keeps s t → Keeps t u → Keeps s u
  Keeps-trans a b = record { keyed = b.keyed; logs = Logs-trans a.logs b.logs }

  pub Keeps-refl : (s : Store F) → IsKeyed s → Keeps s s
  Keeps-refl s h = record { keyed = h; logs = Logs-refl s }

  -- One event that tells what has been written since `s`.
  pub log-Keeps :
      (event : LedgerEvent F) (s t : Store F)
      → IsKeyed t
      → t.events ≡ s.events
      → apply_event (view s) event ≡ ok (view t)
      → Keeps s (append event t)
  unfolding apply_events
  log-Keeps event s t h e told = record {
    keyed = h;
    logs = record { added = event ∷ []; events = rw e refl; told = rw told refl };
  }

  pub seeded-Keeps :
      (wallet : WalletState F) (now : Instant) (s : Store F)
      → IsKeyed s
      → Keeps s (log_wallet (wallet_event wallet_seeded wallet now) wallet s)
  unfolding apply_event
  seeded-Keeps wallet now s h = log-Keeps _ s (save_wallet wallet s) h refl refl

  pub reconciled-Keeps :
      (wallet : WalletState F) (now : Instant) (s : Store F)
      → IsKeyed s
      → Keeps s (log_wallet (wallet_event wallet_reconciled wallet now) wallet s)
  unfolding apply_event
  reconciled-Keeps wallet now s h = log-Keeps _ s (save_wallet wallet s) h refl refl

  save_position-IsKeyed :
      (row : PositionState F) (s : Store F) → IsKeyed s → IsKeyed (save_position row s)
  save_position-IsKeyed row s h = (h.0, h.1, Keyed-insert position_key row s.positions h.2)

  pub protected-Keeps :
      (id : String) (row : PositionState F) (wallet : WalletState F) (now : Instant) (s : Store F)
      → IsKeyed s
      → Keeps s (
          log_position
            (event_of stop_order_confirmed id (position_payload wallet row) now)
            row
            wallet
            s)
  unfolding apply_event
  protected-Keeps id row wallet now s h =
      log-Keeps _ s (save_wallet wallet (save_position row s)) (save_position-IsKeyed row s h) refl
        refl

  pub sold-Keeps :
      (id : String) (row : PositionState F) (wallet : WalletState F) (now : Instant) (s : Store F)
      → IsKeyed s
      → Keeps s
          (log_position (event_of exit_confirmed id (position_payload wallet row) now) row wallet s)
  unfolding apply_event
  sold-Keeps id row wallet now s h =
      log-Keeps _ s (save_wallet wallet (save_position row s)) (save_position-IsKeyed row s h) refl
        refl

  -- The event of an import makes a rebuilding write the position twice.
  pub imported-Keeps :
      (id : String) (row : PositionState F) (wallet : WalletState F) (now : Instant) (s : Store F)
      → IsKeyed s
      → Keeps s (
          append
            (event_of position_imported id (position_payload wallet row) now)
            (save_wallet wallet (save_position row s)))
  unfolding apply_event
  imported-Keeps id row wallet now s h =
      log-Keeps _ s (save_wallet wallet (save_position row s)) (save_position-IsKeyed row s h) refl
        (rw (insert-insert row.position_id row row s.positions) refl)

  -- An event that carries no row.
  pub note-Keeps :
      (event : LedgerEvent F) (s : Store F)
      → IsKeyed s
      → apply_event (view s) event ≡ ok (view s)
      → Keeps s (append event s)
  note-Keeps event s h told = log-Keeps event s s h refl told

  pub notice-Keeps :
      (row : PositionState F) (now : Instant) (told : Bool) (s : Store F)
      → IsKeyed s
      → Keeps s (notice (unprotected_event row now) told s)
  unfolding apply_event
  notice-Keeps row now false s h = Keeps-refl s h
  notice-Keeps row now true s h = note-Keeps (unprotected_event row now) s h refl

  pub expire_plan-Keeps :
      (now : Instant) (plan : TradePlan F) (s : Store F)
      → IsKeyed s
      → Keeps s (expire_plan now plan s)
  unfolding apply_event
  expire_plan-Keeps now plan s h =
      let gone = record plan { status = PlanStatus.expired } in
      log-Keeps _ s (save_plan gone s) (Keyed-insert plan_key gone s.plans h.0, h.1, h.2) refl refl
