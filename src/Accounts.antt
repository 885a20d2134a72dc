-- ===== src/Accounts.antt =====
-- sdks/oracles/ts/src/accounts: the decoders of the program's accounts.
pub mod Common
pub mod Layout
pub mod Total
pub mod Kinds
pub mod Layouts
pub mod Meta
pub mod Proposer
pub mod Protocol
pub mod Oracle
pub mod FactVote
pub mod AiClaim
pub mod Market
pub mod Fact
