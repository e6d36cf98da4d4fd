-- ===== src/Tests.antt =====
-- Sample data, runs of the model on it, and the theorems at concrete inputs.
mod Data
mod Engines
mod Session
mod Intraday
mod Scores
mod Runtime
mod Backtest
