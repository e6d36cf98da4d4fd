-- ===== src/Backtest.antt =====
-- replay/engine.py: the replay of a past session.
pub mod Trade
