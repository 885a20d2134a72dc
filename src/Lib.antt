-- ===== src/Lib.antt =====
-- Kassandra: a dispute-resolution oracle on Solana, prediction markets over it, and their TypeScript
-- clients. This library models the clients: the oracle SDK (sdks/oracles/ts/src), the market SDK
-- (sdks/markets/ts/src) and the parts of the web app that decide something (app/src); and of the
-- on-chain program (programs/oracles/src/processor) the parsers that the SDK's data is meant for.
--
-- How the parts interact. A page asks the SDK for instructions: a builder derives addresses, encodes
-- its arguments behind the discriminant, and lists the accounts. The app packs several steps into
-- few transactions and sends them in order. The program parses the data and keeps accounts, which
-- the SDK decodes again; the app counts, filters and orders what was decoded. The runner bridge
-- checks the SDK's encoding of a claim against the bytes that an independent runner computed. A flow
-- of the market SDK composes its builders with those of the MetaDAO programs, in which a market's
-- question, vault and pool live, and threads the derived addresses through all of them.
--
-- The files:
--   Base          lists, tests and integers over the native numbers; exceptions as values. A function
--                 that throws returns a `Result`, and `Error` has a constructor for each throw.
--   Platform      web3.js and the text codec, as a parameter with the laws that are relied on. The
--                 codec takes back a text without lone surrogates and a byte order mark in front.
--   Bytes         sdks/oracles/ts/src/bytes.ts. A write past the range of its type wraps, as a
--                 `DataView` does; a float is never passed.
--   Accounts      sdks/oracles/ts/src/accounts: one module for each account, the layout of the Rust
--                 struct in its child Layout, and what the decoder accepts in Accepts. Meta is the
--                 account of variable size; Kinds and Layouts put the decoders side by side.
--   Instructions  sdks/oracles/ts/src/instructions and pda.ts: Payload, Pda, and a module for each
--                 file of builders; Calls puts the builders side by side, Promises is about them all.
--   Wire          the parsers of programs/oracles/src/processor, on the data of the builders;
--                 Requests puts five of them side by side.
--   Markets       sdks/markets/ts/src: Payload (constants.ts), Pda, the builders of
--                 instructions/market (Config, Funding, Lifecycle, Liquidity) with Promises about
--                 them all, Metadao (metadao/), Accounts (accounts/) and Flows (flows/). Its helpers
--                 for bytes and payloads are word for word those of the oracle SDK and taken from
--                 Bytes and Instructions.Payload. Of calls that are awaited together, the one that
--                 stands first throws first. An address text is not empty, and a slippage is a
--                 natural number.
--   Runner        sdks/oracles/ts/src/runner-bridge.ts: hexadecimal, the parity guard, the seeds.
--   App.Pack      app/src/market/data/actions/packTx.ts. The batches that are still to be pushed are
--                 the result of the loop, so that it is recursion on the steps.
--   App.Sequence  app/src/market/hooks/useActionSequence.ts: `run` maps the statuses before to the
--                 statuses after and to how it ended. React's functional updates are applied in the
--                 order in which the hook makes them. The answers of wallet and indexer are
--                 functions, which for sending also take the number of the batch.
--   App.Stats     app/src/lib/oracleStats.ts.
--   App.Amount    app/src/market/data/amount.ts, and toPlainAmount of
--                 app/src/components/markets/actions/TradePanel.tsx, on character codes. Printing a
--                 number has fuel for one more digit than the number counts, which is enough.
--   App.MarketView  app/src/market/lib/marketView.ts: funding progress, the value of a pool, a
--                 contributor's LP, the link of an oracle's page, the view of a market's page.
--   App.Trade     app/src/market/data/actions/trade.ts, and toAddress of ata.ts. The root of the
--                 unwinding equation, which the code takes in floats, is a parameter. A slippage is
--                 a natural number, and an amount is at most 2 ^ 53 where it passes through a float.
--   App.Split     uniformSplit of app/src/market/data/actions/bulkLiquidity.ts.
--   App.Write     app/src/market/data/writeAction.ts, with relaying and confirming of send.ts. A run is
--                 the list of the statuses that are set and the one that is returned; the indexer's
--                 answers until the deadline are a list, so that the rounds recur on it.
--   App.Finalize  app/src/data/actions/finalize.ts up to the builders. The scan for a nonce recurs on
--                 the number of rounds that its bound leaves.
--   App.Timeline  phaseTimelineModel of app/src/lib/phaseTimeline.ts.
--   App.Amm       app/src/data/ammV04.ts. The division of floats in the progress is a parameter;
--                 prices of u64 and u128 fields are natural numbers.
--   Tests         a concrete platform, and the theorems at concrete inputs.
--
-- Numbers are natural numbers; a signed 64-bit field is a `ℤ`, in two's complement on the wire. No
-- other loop needs fuel: they recur on a list or on a counter that the code has too. An
-- `Instruction` is a record, and an address input is an address or its base58 text.
--
-- Not modelled: React components and pages but for toPlainAmount; the market SDK's request of a
-- Jupiter entry and its error messages; the oracle SDK's clients of foreign programs (futarchy,
-- Meteora, AMM v0.4); labels, tones, the other forms and the price impacts (floats) of the app;
-- sending over a connection; `JSON.parse` of a runner's output; and the Rust programs and services
-- but for the parsers named above.
pub mod Base
pub mod Platform
pub mod Bytes
pub mod Accounts
pub mod Instructions
pub mod Wire
pub mod Runner
pub mod App
pub mod Markets
pub mod Tests
