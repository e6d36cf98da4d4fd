-- ===== src/Selection.antt =====
-- src/market_brain/orchestration beside the service: which symbols are looked at.
pub mod Screener
