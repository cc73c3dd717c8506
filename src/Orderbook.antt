-- ===== src/Orderbook.antt =====
-- bot/app/marketdata/orderbook_state.py
pub mod Types
pub mod Reasons
pub mod Levels
pub mod Side
pub mod State
pub mod Updates
pub mod View
pub mod Index
pub mod Sound
pub mod Parsing
pub mod Best
pub mod Outcome
pub mod Aging
pub mod WellFormed
pub mod Refresh
pub mod Reach
pub mod Sequence
pub mod Feed
pub mod Recovery
pub mod Top
pub mod Tests
