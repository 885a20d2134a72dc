-- ===== src/Markets/Accounts/Layouts.antt =====
-- The three accounts of the market program side by side.
use kassandra.Base.{ℕ, ◌≡◌, List, ◌∷◌, concat, Result, ok}
use kassandra.Platform.{Platform}
use kassandra.Markets.Accounts.Common.{AccountType}
use kassandra.Markets.Accounts.Header.{header}
use kassandra.Markets.Accounts.Config.{Config, decode_config}
use kassandra.Markets.Accounts.Config.Layout.{config_fields, FitsConfig, decode_config-layout}
use kassandra.Markets.Accounts.Market.{Market, decode_market}
use kassandra.Markets.Accounts.Market.Layout.{market_fields, FitsMarket, decode_market-layout}
use kassandra.Markets.Accounts.Contribution.{Contribution, decode_contribution}
use kassandra.Markets.Accounts.Contribution.Layout.{
  contribution_fields, FitsContribution, decode_contribution-layout,
}

pub data Kind : Type 0 where
  config market contribution : Kind

abbrev pub type_of : Kind → AccountType
type_of config = AccountType.config
type_of market = AccountType.market
type_of contribution = AccountType.contribution

module _ (p : Platform) where
  -- What the decoder of a kind returns, the decoder, and the fields and ranges of the Rust struct.
  abbrev pub Account : Kind → Type 0
  Account config = Config p.Address
  Account market = Market p.Address
  Account contribution = Contribution p.Address

  abbrev pub decode : (k : Kind) → List ℕ → Result (Account k)
  decode config raw = decode_config p raw
  decode market raw = decode_market p raw
  decode contribution raw = decode_contribution p raw

  abbrev pub fields : (k : Kind) → Account k → List (List ℕ)
  fields config a = config_fields p a
  fields market a = market_fields p a
  fields contribution a = contribution_fields p a

  abbrev pub Fits : (k : Kind) → Account k → Type 0
  Fits config a = FitsConfig p a
  Fits market a = FitsMarket p a
  Fits contribution a = FitsContribution p a

  -- Each of the three decoders reads back every field of an account that lies in memory as the Rust
  -- struct of its kind does, its numbers within their types.
  pub decode_market_account-layout :
      (k : Kind) (a : Account k) (raw : List ℕ)
      → raw ≡ concat (header (type_of k) ∷ fields k a)
      → Fits k a
      → decode k raw ≡ ok a
  decode_market_account-layout config a raw laid fits = decode_config-layout p a raw laid fits
  decode_market_account-layout market a raw laid fits = decode_market-layout p a raw laid fits
  decode_market_account-layout contribution a raw laid fits =
      decode_contribution-layout p a raw laid fits
