-- ===== src/App/MarketView.antt =====
-- app/src/market/lib/marketView.ts, and `decodeAmmReserves` of sdks/markets/ts/src/metadao/accounts.ts.
-- A ratio is the pair of the two numbers that the code divides as floats in the end.
pub mod Pool
pub mod Shares
pub mod Bound
use kassandra.Base.{
  ℕ, ◌+◌, ◌*◌, ◌/◌, List, [], ◌∷◌, Bool, true, false, ◌&&◌, not, Option, none, some, Result, ok,
  err, leb, ltb, ◌==◌, if◌then◌else◌, length, take,
}
use kassandra.Platform.{Platform}
use kassandra.Accounts.Common.{read_u64_le}
use kassandra.Runner.{bytes_equal}
use kassandra.App.Amm.{amm_account_discriminator}
use kassandra.App.Stats.Sort.{sort}
use kassandra.Markets.Accounts.Market.{Market}
use kassandra.Markets.Accounts.Contribution.{Contribution}

pub record AmmReserves : Type 0 where
  pub base : ℕ
  pub quote : ℕ

abbrev pub reserves_min_len : ℕ
reserves_min_len = 131

-- A read within the data returns.
abbrev pub reserves_read : Result ℕ → Result ℕ → Option AmmReserves
reserves_read (ok base) (ok quote) = some (record { base = base; quote = quote })
reserves_read (ok base) (err e) = none
reserves_read (err e) quote = none

unfoldable pub decode_amm_reserves : List ℕ → Option AmmReserves
decode_amm_reserves raw =
    if not (leb reserves_min_len (length raw))
    then none
    else if not (bytes_equal (take 8 raw) amm_account_discriminator)
    then none
    else reserves_read (read_u64_le raw 115) (read_u64_le raw 123)

pub record FundingActions : Type 0 where
  pub can_activate : Bool
  pub can_cancel : Bool

unfoldable pub funding_actions : Bool → Bool → FundingActions
funding_actions funded oracle_terminal = record {
  can_activate = funded && not oracle_terminal;
  can_cancel = oracle_terminal;
}

-- `pct` is a ratio; below the floor it is under one, so that the clamp of the code changes nothing.
pub record FundingProgress : Type 0 where
  pub pct : ℕ × ℕ
  pub funded : Bool

unfoldable pub funding_progress : {Address : Type 0} → Market Address → FundingProgress
funding_progress market =
    if market.min_liquidity == 0
    then record { pct = (1, 1); funded = true }
    else if leb market.min_liquidity market.total_contributed
    then record { pct = (1, 1); funded = true }
    else record { pct = (market.total_contributed, market.min_liquidity); funded = false }

unfoldable pub implied_yes_probability : Option AmmReserves → Option (ℕ × ℕ)
implied_yes_probability none = none
implied_yes_probability (some reserves) =
    let total = reserves.base + reserves.quote in
    if total == 0 then none else some (reserves.quote, total)

unfoldable pub pool_value_kass : Option AmmReserves → Option ℕ
pool_value_kass none = none
pool_value_kass (some reserves) =
    let sum = reserves.base + reserves.quote in
    if sum == 0 then none else some ((2 * reserves.base * reserves.quote) / sum)

unfoldable pub contributor_lp : {Address : Type 0} → Contribution Address → Market Address → ℕ
contributor_lp contribution market =
    let funding_lp =
      if ltb 0 market.activation_contributed
      then (contribution.amount * market.activation_lp) / market.activation_contributed
      else 0 in
    funding_lp + contribution.late_lp

-- `MarketSummary`, as far as the functions here read it.
pub record MarketSummary (p : Platform) : Type 0 where
  pub pubkey : p.Text
  pub market : Market p.Address

module _ (p : Platform) where
  abbrev pub bound_to : p.Text → MarketSummary p → Bool
  bound_to oracle m = p.same_text (p.to_base58 m.market.oracle) oracle

  -- `markets.filter(…)`.
  abbrev pub bound_markets : List (MarketSummary p) → p.Text → List (MarketSummary p)
  bound_markets [] oracle = []
  bound_markets (m ∷ ms) oracle =
      let rest = bound_markets ms oracle in if bound_to oracle m then m ∷ rest else rest

  -- The comparison is positive where the first has the larger index.
  abbrev pub cmp_outcome_index : MarketSummary p → MarketSummary p → Bool
  cmp_outcome_index a b = ltb b.market.outcome_index a.market.outcome_index

  abbrev pub first_pubkey : List (MarketSummary p) → Option p.Text
  first_pubkey [] = none
  first_pubkey (m ∷ ms) = some m.pubkey

  unfoldable pub first_bound_market_pubkey : List (MarketSummary p) → p.Text → Option p.Text
  first_bound_market_pubkey markets oracle =
      first_pubkey (sort cmp_outcome_index (bound_markets markets oracle))

-- The page's data are those of the market that the page is for, or of another, or absent.
pub data DetailView : Type 0 where
  ready loading error empty : DetailView

-- `data && data.pubkey === pubkey`: `pubkey` may be undefined, which no text equals.
abbrev pub holds : (p : Platform) → Option p.Text → Option p.Text → Bool
holds p none held = false
holds p (some pubkey) none = false
holds p (some pubkey) (some held) = p.same_text held pubkey

unfoldable pub detail_view :
    (p : Platform) → Option p.Text → Option p.Text → Bool → Bool → DetailView
detail_view p pubkey held is_loading failed =
    if holds p pubkey held
    then ready
    else if is_loading
    then DetailView.loading
    else if failed
    then error
    else empty
