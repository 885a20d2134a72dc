-- ===== src/Markets/Accounts.antt =====
-- The account decoders of sdks/markets/ts/src/accounts.
pub mod Common
pub mod Header
pub mod Config
pub mod Market
pub mod Contribution
pub mod Oracle
pub mod Layouts
pub mod Agrees
