-- ===== src/Data.antt =====
-- Market data (services/quant/data).
pub mod Universe
pub mod Validation
pub mod Service
pub mod Examples
mod Fetched
