-- ===== src/Ledger/Replay/Append.antt =====
-- Rebuilding from a longer ledger, for ledger/replay.py.
use mathlib.Core.List.{append_assoc, append-nil}
use market_brain.Prelude.{◌≡◌, refl, ◌∙◌, List, [], ◌∷◌, ◌++◌, arith, inl, inr}
use market_brain.Prelude.Result.{ok, Result-cases}
use market_brain.Ledger.Events.{LedgerEvent}
use market_brain.Ledger.Store.{Store}
use market_brain.Ledger.Replay.{Rebuilt, nothing, apply_event, apply_events, rebuild_state, view}

module _ {F : Type 0} where
  pub apply_events-append :
      (r : Rebuilt F) (xs ys : List (LedgerEvent F)) {m : Rebuilt F}
      → apply_events r xs ≡ ok m
      → apply_events r (xs ++ ys) ≡ apply_events m ys
  unfolding apply_events
  apply_events-append r [] ys h = ground arith
  apply_events-append r (x ∷ xs) ys {m} h = elim (Result-cases (apply_event r x)) [
    | inl (next, e) ↦
        let rest : apply_events next xs ≡ ok m = rw e at h in
        rw e (apply_events-append next xs ys rest)
    | inr (t, e) ↦ absurd (ground arith)
  ]

  -- The store is what its ledger tells: rebuilding gives its wallet, plans, reservations and
  -- positions, in the order in which the dicts hold them.
  unfoldable pub IsReplayable : Store F → Type 0
  IsReplayable s = rebuild_state s.events ≡ ok (view s)

  -- A store that has grown by events, and whose tables have gone the way that these events tell.
  pub record Logs (s t : Store F) : Type 0 where
    pub added : List (LedgerEvent F)
    pub events : t.events ≡ s.events ++ added
    pub told : apply_events (view s) added ≡ ok (view t)

  pub Logs-IsReplayable : {s t : Store F} → Logs s t → IsReplayable s → IsReplayable t
  unfolding IsReplayable rebuild_state
  Logs-IsReplayable {s} {t} l h =
      rw l.events (apply_events-append nothing s.events l.added h ∙ l.told)

  pub Logs-trans : {s t u : Store F} → Logs s t → Logs t u → Logs s u
  Logs-trans {s} {t} {u} a b = record {
    added = a.added ++ b.added;
    events = b.events ∙ rw (a.events, append_assoc) refl;
    told = apply_events-append (view s) a.added b.added a.told ∙ b.told;
  }

  pub Logs-refl : (s : Store F) → Logs s s
  unfolding apply_events
  Logs-refl s = record { added = []; events = rw append-nil refl; told = refl }
