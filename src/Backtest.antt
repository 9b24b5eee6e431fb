-- ===== src/Backtest.antt =====
-- The backtester (services/quant/backtest).
pub mod Costs
pub mod Events
pub mod Config
pub mod Portfolio
pub mod Engine
pub mod Compare
pub mod Metrics
pub mod Runner
pub mod Comparison
pub mod Examples
mod Runs
mod Measures
mod Compared
