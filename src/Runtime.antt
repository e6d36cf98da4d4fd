-- ===== src/Runtime.antt =====
-- src/market_brain/runtime: the parts of the workers that decide. The workers themselves are loops
-- around them that sleep, read clocks and call the service.
pub mod Lease
pub mod Monitor
pub mod Stream
pub mod Coverage
