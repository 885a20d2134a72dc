-- ===== src/Markets/Metadao.antt =====
-- The builders for the two MetaDAO programs, sdks/markets/ts/src/metadao.
pub mod Pda
pub mod Vault
pub mod Amm
