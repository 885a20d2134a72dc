-- ===== src/Tests/Views.antt =====
-- The figures of a market's page at concrete markets.
use kassandra.Base.{ℕ, ◌*◌, ◌≤◌, ◌≡◌, refl, arith, List, [], ◌∷◌, some, false, All}
use kassandra.Tests.Sample.{sample, byte_key}
use kassandra.Markets.Accounts.Common.{AccountType}
use kassandra.Markets.Accounts.Market.{Market}
use kassandra.Markets.Accounts.Contribution.{Contribution}
use kassandra.App.MarketView.{
  AmmReserves, MarketSummary, contributor_lp, pool_value_kass, first_bound_market_pubkey,
}
use kassandra.App.MarketView.Shares.{total, total-contributor_lp}
use kassandra.App.MarketView.Pool.{pool_value_kass_bounds}
use kassandra.App.MarketView.Bound.{
  least_bound, BoundTo, Below, first_bound_market_pubkey-least_bound,
}

abbrev contribution : ℕ → ℕ → Contribution sample.Address
contribution amount late_lp = record {
  account_type = AccountType.contribution;
  market = byte_key 1;
  contributor = byte_key 2;
  amount = amount;
  claimed = false;
  bump = 255;
  late_lp = late_lp;
}

abbrev market_for : ℕ → ℕ → Market sample.Address
market_for oracle outcome_index = record {
  account_type = AccountType.market;
  oracle = byte_key oracle;
  creator = byte_key 2;
  kass_mint = byte_key 3;
  escrow_vault = byte_key 4;
  min_liquidity = 1000;
  total_contributed = 100;
  open_contributions = 2;
  status = 1;
  bump = 254;
  escrow_bump = 253;
  question = byte_key 5;
  vault = byte_key 6;
  yes_mint = byte_key 7;
  no_mint = byte_key 8;
  amm = byte_key 9;
  lp_mint = byte_key 10;
  lp_vault = byte_key 11;
  lp_total = 107;
  settled = false;
  fee_bps = 50;
  fee_collected = false;
  outcome_index = outcome_index;
  activation_lp = 100;
  activation_contributed = 100;
  gross_lp_total = 100;
}

abbrev contributions : List (Contribution sample.Address)
contributions = contribution 33 0 ∷ contribution 67 7 ∷ []

total-contributor_lp_example : total (λ c. contributor_lp c (market_for 12 0)) contributions ≤ 107
total-contributor_lp_example =
    total-contributor_lp contributions (market_for 12 0) (omega arith) (omega arith)

abbrev pool : AmmReserves
pool = record { base = 30; quote = 20 }

pool_value_kass_bounds_example : (2 * 24 ≤ 50) × (24 ≤ 60) × (24 ≤ 40)
unfolding pool_value_kass
pool_value_kass_bounds_example = pool_value_kass_bounds pool 24 refl

abbrev markets : List (MarketSummary sample)
markets =
    record { pubkey = 97 ∷ []; market = market_for 12 2 }
    ∷ record { pubkey = 98 ∷ []; market = market_for 13 0 }
    ∷ record { pubkey = 99 ∷ []; market = market_for 12 1 }
    ∷ []

abbrev oracle : sample.Text
oracle = sample.to_base58 (byte_key 12)

first_bound_market_pubkey-least_bound_example :
    (first_bound_market_pubkey sample markets oracle ≡ some (99 ∷ []))
    × BoundTo sample oracle (least_bound sample oracle markets)
    × All (Below sample oracle (least_bound sample oracle markets)) markets
first_bound_market_pubkey-least_bound_example =
    first_bound_market_pubkey-least_bound sample markets oracle
