-- ===== src/Service/Holdings.antt =====
-- `reconcile_holdings` of orchestration/service.py: the broker's holdings against the open positions.
use market_brain.Prelude.{
  ℕ, ◌+◌, String, Bool, false, ◌||◌, Option, none, some, List, [], ◌∷◌, ◌++◌, if◌then◌else◌, leb,
  ◌==◌, is_some, str_eq,
}
use market_brain.Prelude.Dict.{Dict, lookup, insert}
use market_brain.Prelude.Result.{Result, ok, ◌>>=◌, ◌>>◌, raise_if}
use market_brain.Number.{Double}
use market_brain.Domain.{Instant, PositionState, ReconciliationState}
use market_brain.Ledger.Events.{
  event_of, empty_payload, LedgerEvent, EventType, reconciliation_mismatch, unknown_holding,
  reconciliation_completed,
}
use market_brain.Ledger.Store.{Store, append, save_position, list_positions}
use market_brain.Service.Action.{Action, Config}
use market_brain.Service.Wallet.{open_positions}

-- A row of the argument, and what the method returns, each in the order in which it is found; the
-- code sorts the reconciled symbols.
pub record Holding : Type 0 where
  pub symbol : String
  pub quantity : ℕ

-- `twin_quantity` and `declared_quantity`; none is declared for a symbol that the broker lacks
pub record Mismatch : Type 0 where
  pub symbol : String
  pub twin_quantity : ℕ
  pub declared_quantity : Option ℕ

abbrev pub mismatch : String → ℕ → Option ℕ → Mismatch
mismatch symbol twin declared = record {
  symbol = symbol;
  twin_quantity = twin;
  declared_quantity = declared;
}

pub record Outcome : Type 0 where
  pub reconciled_symbols : List String
  pub mismatches : List Mismatch
  pub unknown_holdings : List Holding

-- `str.strip` is an argument.
unfoldable pub declare : (clean : String → String) → List Holding → Dict ℕ → Result (Dict ℕ)
declare clean [] declared = ok declared
declare clean (row ∷ rows) declared =
    raise_if (str_eq (clean row.symbol) "" || leb row.quantity 0) "INVALID_RECONCILIATION_HOLDING"
    >> (raise_if (is_some (lookup (clean row.symbol) declared)) "DUPLICATE_RECONCILIATION_SYMBOL"
        >> declare clean rows (insert (clean row.symbol) row.quantity declared))

-- the declared quantity is the one of the positions
abbrev pub agrees : Option ℕ → ℕ → Bool
agrees none twin = false
agrees (some quantity) twin = quantity == twin

module _ {F : Type 0} where
  abbrev pub or_empty : Option (List (PositionState F)) → List (PositionState F)
  or_empty none = []
  or_empty (some rows) = rows

  -- `by_symbol.setdefault(key, []).append(row)`
  abbrev pub put_row :
      String → PositionState F → Dict (List (PositionState F)) → Dict (List (PositionState F))
  put_row key row groups = insert key (or_empty (lookup key groups) ++ row ∷ []) groups

  unfoldable pub group_rows :
      (upper : String → String)
      → List (PositionState F)
      → Dict (List (PositionState F))
      → Dict (List (PositionState F))
  group_rows upper [] groups = groups
  group_rows upper (row ∷ rows) groups =
      group_rows upper rows (put_row (upper row.symbol) row groups)

  -- `sum(row.remaining_quantity for row in positions)`
  unfoldable pub twin_quantity : List (PositionState F) → ℕ
  twin_quantity [] = 0
  twin_quantity (row ∷ rows) = row.remaining_quantity + twin_quantity rows

  -- the three marks of a position
  abbrev pub missing : PositionState F → PositionState F
  missing row = record row { reconciliation_state = ReconciliationState.missing_at_broker }

  abbrev pub differing : PositionState F → PositionState F
  differing row = record row { reconciliation_state = ReconciliationState.unreconciled }

  abbrev pub agreeing : Instant → PositionState F → PositionState F
  agreeing now row = record row {
    reconciliation_state = ReconciliationState.reconciled;
    last_reconciled_at = some now;
  }

  unfoldable pub mark_rows :
      (PositionState F → PositionState F) → List (PositionState F) → Store F → Store F
  mark_rows mark [] s = s
  mark_rows mark (row ∷ rows) s = mark_rows mark rows (save_position (mark row) s)

  -- an event without rows
  abbrev pub log_bare : EventType → String → Instant → Store F → Store F
  log_bare event_type symbol now s = append (event_of event_type symbol empty_payload now) s

  -- the positions of one symbol, with the quantity that the broker declares
  abbrev pub settle_group : Instant → String → List (PositionState F) → Option ℕ → Store F → Store F
  settle_group now symbol rows none s =
      log_bare reconciliation_mismatch symbol now (mark_rows missing rows s)
  settle_group now symbol rows (some quantity) s =
      if quantity == twin_quantity rows
      then mark_rows (agreeing now) rows s
      else log_bare reconciliation_mismatch symbol now (mark_rows differing rows s)

  unfoldable pub settle_groups :
      Instant → Dict ℕ → Dict (List (PositionState F)) → Store F → Store F
  settle_groups now declared [] s = s
  settle_groups now declared ((symbol, rows) ∷ groups) s =
      settle_groups now declared groups (settle_group now symbol rows (lookup symbol declared) s)

  -- the symbols that only the broker holds
  unfoldable pub log_unknown : Instant → Dict (List (PositionState F)) → Dict ℕ → Store F → Store F
  log_unknown now groups [] s = s
  log_unknown now groups ((symbol, quantity) ∷ declared) s =
      log_unknown now groups declared
        (if is_some (lookup symbol groups) then s else log_bare unknown_holding symbol now s)

  -- what is returned: the symbols that agree, those that do not, and the holdings without position
  unfoldable pub agreed_of : Dict ℕ → Dict (List (PositionState F)) → List String
  agreed_of declared [] = []
  agreed_of declared ((symbol, rows) ∷ groups) =
      let rest = agreed_of declared groups in
      if agrees (lookup symbol declared) (twin_quantity rows) then symbol ∷ rest else rest

  unfoldable pub mismatches_of : Dict ℕ → Dict (List (PositionState F)) → List Mismatch
  mismatches_of declared [] = []
  mismatches_of declared ((symbol, rows) ∷ groups) =
      let rest = mismatches_of declared groups in
      if agrees (lookup symbol declared) (twin_quantity rows)
      then rest
      else mismatch symbol (twin_quantity rows) (lookup symbol declared) ∷ rest

  unfoldable pub unknown_of : Dict (List (PositionState F)) → Dict ℕ → List Holding
  unknown_of groups [] = []
  unknown_of groups ((symbol, quantity) ∷ declared) =
      let rest = unknown_of groups declared in
      if is_some (lookup symbol groups)
      then rest
      else record { symbol = symbol; quantity = quantity } ∷ rest

  abbrev pub outcome_of : Dict ℕ → Dict (List (PositionState F)) → Outcome
  outcome_of declared groups = record {
    reconciled_symbols = agreed_of declared groups;
    mismatches = mismatches_of declared groups;
    unknown_holdings = unknown_of groups declared;
  }

  -- the last event, which carries every position
  abbrev pub completed : Instant → Store F → LedgerEvent F
  completed now s =
      event_of reconciliation_completed "portfolio"
        (record empty_payload { positions = list_positions s }) now

  abbrev pub log_completed : Instant → Store F → Store F
  log_completed now s = append (completed now s) s

module _ {F : Type 0} ⦃num : Double F⦄ where
  unfoldable pub reconcile_holdings :
      Config F → (strip : String → String) → List Holding → Instant → Action F Outcome
  reconcile_holdings cfg strip holdings now s = do
    declared ← declare (λ symbol. strip (cfg.upper symbol)) holdings []
    let groups = group_rows cfg.upper (open_positions s) []
    let settled = log_unknown now groups declared (settle_groups now declared groups s)
    ok (outcome_of declared groups, log_completed now settled)
