-- ===== src/Service/Replay.antt =====
-- The methods of orchestration/service.py against ledger/replay.py.
mod Consistent
pub mod Writes
pub mod Money
pub mod Signals
pub mod Session
pub mod Fills
pub mod Reserve
pub mod Sweep
pub mod Holdings
pub mod Reconcile
pub use Consistent.*
