-- ===== src/Markets.antt =====
-- The prediction-market SDK, sdks/markets/ts/src.
pub mod Payload
pub mod Keys
pub mod Pda
pub mod Metadao
pub mod Accounts
pub mod Config
pub mod Funding
pub mod Lifecycle
pub mod Liquidity
pub mod Flows
pub mod Promises
