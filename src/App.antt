-- ===== src/App.antt =====
-- The parts of the web app that decide something: app/src/.
pub mod Pack
pub mod Sequence
pub mod Stats
pub mod Amount
pub mod Timeline
pub mod Amm
pub mod MarketView
pub mod Trade
pub mod Split
pub mod Write
pub mod Finalize
