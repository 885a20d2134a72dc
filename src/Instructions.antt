-- ===== src/Instructions.antt =====
-- sdks/oracles/ts/src/instructions: the builders of the program's instructions, over the helpers of
-- payload.ts and the address derivations of pda.ts. Promises are plain results here.
pub mod Payload
pub mod Pda
pub mod Lifecycle
pub mod Governance
pub mod Dispute
pub mod Settlement
pub mod Challenge
pub mod Calls
pub mod Promises
pub mod MetaBody
