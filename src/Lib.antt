-- ===== src/Lib.antt =====
-- market-brain decides when a trading plan may be bought, reserves the wallet's capacity for it,
-- follows the fill and the position, and records every change in an event ledger. This library
-- models the decision service, its ledger and the engines that it asks, the selection of symbols
-- before it, the delivery of its alerts behind it, and the parts of the runtime that guard a session.
--
-- The parts and their files. Paths are those of the repository.
-- - Domain: the records and enumerations of src/market_brain/domain/models.py. An instant is a
--   number of microseconds.
-- - Settings: the fields of src/market_brain/settings.py that the code below reads.
-- - Engines: the functions of src/market_brain/engines: Wallet (`size_from_wallet`), Quality
--   (`classify_quality`, `lane_risk_multiplier`), Volatility (`wilder_atr`,
--   `apply_volatility_context` and its gates), Liquidity (the two gates), Plan
--   (`build_trade_plan`), Activation (`activate_plan`) and Position (`evaluate_position`,
--   `validate_stop_change`), Features (`compute_features`, `apply_ranking_context`), Ranking
--   (`score_features`), Consensus (`resolve_market_authority`) and Scorer (quality_scorer.py, with
--   the growth rates and margins in Trend). A function that raises returns `err` with the text of
--   the error.
-- - Engines.Intraday: engines/intraday.py. Bars has the bars and the clock, Update is
--   `update_intraday_structure`, Merge is `_merged_bars` and Compute is `compute_structure`. The
--   other files state what a structure is that the updates reach (Retest, Confirmed, Reached) and
--   how the recomputation compares with them (Replayed, Recomputed).
-- - Ledger: src/market_brain/ledger. Events and Store hold the tables as Python dicts in
--   insertion order; Replay is `rebuild_state` of replay.py. What a store returns is a copy and a
--   transaction that raises is rolled back, as in `PostgresEventStore`.
-- - Service: `DecisionService` of src/market_brain/orchestration/service.py. Wallet
--   (`seed_wallet`, `reconcile_wallet`), Import (`import_position`), Exit (`protect_position`,
--   `confirm_exit`), Checks and Fill (`confirm_fill`), Capacity (`release_reservation`,
--   `sweep_expired`), Answers and Activate (`_activate_with_context`), Trigger
--   (`record_trigger_hit`, `activate`, the writes of `build_plan`, and `evaluate_position` as
--   `watch_position`). A method is a function from a store to a value with the new store, or an
--   error. Calls runs a session of them, one after another. Holdings is `reconcile_holdings`;
--   what it returns is in the order found, where the code sorts.
-- - Service.Issue: `build_plan`, from a sample over its features and its score to the stored plan.
-- - Service.Overdue: the plans behind a sweep.
-- - Service.Replay: the methods of the service against the rebuilding of the ledger: the keys of
--   the rows, and the events that a method appends.
-- - Alerts: src/market_brain/alerts/dispatcher.py with the operations of the store on alerts: the
--   alerts that a dispatch takes (Order), one attempt (Attempts) and many of them (Retry).
-- - Runtime: parts of src/market_brain/runtime. Lease is session_state.py, the lease of a session and
--   the handoff of its dump; Coverage is coverage.py; Monitor is position_monitor.py; Stream is
--   stream_health.py.
-- - Selection.Screener: `MarketScreener.screen` of src/market_brain/orchestration/screener.py.
-- - Backtest.Trade: the virtual trade of src/market_brain/replay/engine.py, by ticks and bars, with
--   what it has sold (Sold, Managed).
-- - Number: floats are a type with the operations that the code uses. The theorems that need laws
--   of comparison take them as the record `IsOrdered`, which NaN does not break; `IsMonotone` adds
--   those of arithmetic. Sample has a type of hundredths that meets them and runs the tests.
-- - Prelude: the helpers that the parts share: tests, lists, dicts, results, sorting by insertion.
-- - Tests: sample data, a session from the seed to the exit, and the theorems at concrete inputs.
--
-- The recursion is structural, on lists and numbers. The one loop of the modelled code over a
-- condition, that of `expected_radar_slots`, runs on the fuel `slot_rounds` of 37 rounds, which is
-- enough: from 9:50 to 15:50 by ten minutes there are 37 slots. Share counts are natural numbers,
-- and the quantities that the code reads from requests are taken as not negative. The clock, the
-- random identifiers, SHA-256, `str.upper`, the hours of New York (`Zone`), the `send` of the sinks
-- of alerts and the status of a workflow run are arguments.
-- The text of FILL_RISK_EXCEEDS_TOLERANCE is kept without its figures. The free text of tickets
-- and alerts and the payload keys that no replay reads are not modelled, nor are the notifications
-- of a changed state. Calls run one at a time: the model has no interleaving of requests. A raw
-- field of a bar is an optional number and an optional time: what `float` and `fromisoformat` make
-- of it. Of a handoff file the keys and the values that the code writes are kept.
-- The payload of an event holds the records themselves: what `asdict` and the `_..._from_json` of
-- src/market_brain/ledger/store.py make of a plan, a wallet, a reservation or a position and back is
-- taken to be the same record, so a field that one of them forgot would not be seen. The operations
-- of the store are those of `InMemoryEventStore`; the copies and the rollback are those of
-- `PostgresEventStore`.
--
-- Not modelled: the premarket scan, the reading of EDGAR facts, the symbols, plans and reports of a
-- replay of a past session, the run loops and caches of the runtime, the providers, the HTTP
-- interface, the scripts and the SQL, most of which is input and output.
pub mod Prelude
pub mod Number
pub mod Domain
pub mod Settings
pub mod Engines
pub mod Ledger
pub mod Service
pub mod Alerts
pub mod Runtime
pub mod Selection
pub mod Backtest
pub mod Tests
