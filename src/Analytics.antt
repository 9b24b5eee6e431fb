-- ===== src/Analytics.antt =====
-- Portfolio analytics (services/quant/portfolio).
pub mod Holdings
pub mod Scenario
pub mod Risk
pub mod Examples
mod WhatIf
mod Windowed
