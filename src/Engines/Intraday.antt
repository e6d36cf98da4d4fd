-- ===== src/Engines/Intraday.antt =====
-- engines/intraday.py: the opening range of a session, its breakout and the retest.
pub mod Bars
pub mod Update
pub mod Retest
pub mod Confirmed
pub mod Reached
pub mod Merge
pub mod Compute
pub mod Replayed
pub mod Recomputed
