-- ===== src/Strategies.antt =====
-- The strategy contract and the strategies (services/quant/strategies).
pub mod Base
pub mod Parameters
pub mod Registry
pub mod Columns
pub mod Macd
pub mod Bollinger
pub mod DualThrust
pub mod Examples
mod Declared
mod Traded
mod Paired
pub mod LongOnly
pub mod PairTrading
