-- ===== src/Service.antt =====
-- orchestration/service.py: the operations of `DecisionService` on the store.
mod Action
pub mod Wallet
pub mod Import
pub mod Exit
pub mod Answers
pub mod Activate
pub mod Trigger
pub mod Checks
pub mod Fill
pub mod Calls
pub mod Capacity
pub mod Replay
pub mod Overdue
pub mod Holdings
pub mod Issue
pub use Action.*
