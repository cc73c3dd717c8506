-- ===== src/Polymarket.antt =====
-- Module Polymarket: the local order book of bot/app/marketdata/polymarket_orderbook.py.
pub mod Types
pub mod Levels
pub mod Reported
pub mod Quoting
pub mod Readiness
pub mod LocalBook
pub mod Mismatch
pub mod Agreement
pub mod Complete
pub mod Run
pub mod Safety
pub mod Recovery
pub mod Samples
pub mod Limit
pub mod Counting
pub mod Tally
mod Tests
