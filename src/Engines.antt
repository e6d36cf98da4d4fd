-- ===== src/Engines.antt =====
-- src/market_brain/engines: the pure decision functions.
pub mod Wallet
pub mod Quality
pub mod Volatility
pub mod Position
pub mod Liquidity
pub mod Plan
pub mod Activation
pub mod Intraday
pub mod Features
pub mod Ranking
pub mod Consensus
pub mod Scorer
