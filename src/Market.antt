-- ===== src/Market.antt =====
-- Module Market: the state of bot/app/state/market_state.py.
pub mod Types
pub mod History
pub mod Apply
pub mod Window
pub mod Quotes
pub mod Complete
mod Tests
