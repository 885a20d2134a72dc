-- ===== src/Markets/Flows/Compose/Refs.antt =====
-- The addresses that a market is composed with, and those that are read back from its account.
use kassandra.Base.{◌≡◌, arith, ok}
use kassandra.Platform.{Platform}
use kassandra.Markets.Payload.{MarketIds}
use kassandra.Markets.Accounts.Market.{Market}
use kassandra.Markets.Flows.Compose.{
  MarketRefs, ComposeParams, Composed, market_refs_from_account, compose_refs,
  compose_market_instructions,
}

-- The account records what the market was composed with.
pub record Records {Address : Type 0} (account : Market Address) (refs : MarketRefs Address)
    : Type 0 where
  pub oracle : account.oracle ≡ refs.oracle
  pub kass_mint : account.kass_mint ≡ refs.kass_mint
  pub question : account.question ≡ refs.question
  pub vault : account.vault ≡ refs.vault
  pub yes_mint : account.yes_mint ≡ refs.yes_mint
  pub no_mint : account.no_mint ≡ refs.no_mint
  pub amm : account.amm ≡ refs.amm
  pub lp_mint : account.lp_mint ≡ refs.lp_mint
  pub lp_vault : account.lp_vault ≡ refs.lp_vault
  pub escrow : account.escrow_vault ≡ refs.escrow

module _ (p : Platform) (ids : MarketIds p) where
  -- The refs read back from the account of a market that records what it was composed with are the
  -- refs it was composed with.
  pub market_refs_from_account-compose :
      (params : ComposeParams p.Address p.Text) (made : Composed p.Address)
      (account : Market p.Address)
      → compose_market_instructions p ids params ≡ ok made
      → Records account made.refs
      → market_refs_from_account p ids params.market account ≡ ok made.refs
  unfolding compose_market_instructions compose_refs market_refs_from_account
  market_refs_from_account-compose params made account h r = ground arith
