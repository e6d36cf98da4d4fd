-- ===== src/Ledger.antt =====
-- src/market_brain/ledger: the events, the store and its rebuilding from the events.
pub mod Events
pub mod Store
pub mod Replay
