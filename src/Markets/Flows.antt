-- ===== src/Markets/Flows.antt =====
-- The flows of sdks/markets/ts/src/flows, which compose the builders.
pub mod Atas
pub mod Compose
pub mod Trade
pub mod AddLiquidity
pub mod CreateAll
pub mod Exit
