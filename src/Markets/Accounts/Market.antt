-- ===== src/Markets/Accounts/Market.antt =====
-- sdks/markets/ts/src/accounts/market.ts, against `Market` of programs/markets/src/state.rs.
pub mod Layout
use kassandra.Base.{ℕ, List, Bool, Result, ok, ◌>>=◌, ◌>>◌}
use kassandra.Platform.{Platform}
use kassandra.Accounts.Common.{read_pubkey, read_u64_le, read_u16_le, read_u8, read_bool}
use kassandra.Markets.Accounts.Common.{AccountType, assert_account, market_size}

pub record Market (Address : Type 0) : Type 0 where
  pub account_type : AccountType
  pub oracle : Address
  pub creator : Address
  pub kass_mint : Address
  pub escrow_vault : Address
  pub min_liquidity : ℕ
  pub total_contributed : ℕ
  pub open_contributions : ℕ
  pub status : ℕ
  pub bump : ℕ
  pub escrow_bump : ℕ
  pub question : Address
  pub vault : Address
  pub yes_mint : Address
  pub no_mint : Address
  pub amm : Address
  pub lp_mint : Address
  pub lp_vault : Address
  pub lp_total : ℕ
  pub settled : Bool
  pub fee_bps : ℕ
  pub fee_collected : Bool
  pub outcome_index : ℕ
  pub activation_lp : ℕ
  pub activation_contributed : ℕ
  pub gross_lp_total : ℕ

module _ (p : Platform) where
  unfoldable pub decode_market : List ℕ → Result (Market p.Address)
  decode_market raw = do
    assert_account raw AccountType.market market_size
    oracle ← read_pubkey p raw 8
    creator ← read_pubkey p raw 40
    kass_mint ← read_pubkey p raw 72
    escrow_vault ← read_pubkey p raw 104
    min_liquidity ← read_u64_le raw 136
    total_contributed ← read_u64_le raw 144
    open_contributions ← read_u16_le raw 152
    status ← read_u8 raw 154
    bump ← read_u8 raw 155
    escrow_bump ← read_u8 raw 156
    question ← read_pubkey p raw 160
    vault ← read_pubkey p raw 192
    yes_mint ← read_pubkey p raw 224
    no_mint ← read_pubkey p raw 256
    amm ← read_pubkey p raw 288
    lp_mint ← read_pubkey p raw 320
    lp_vault ← read_pubkey p raw 352
    lp_total ← read_u64_le raw 384
    settled ← read_bool raw 392
    fee_bps ← read_u16_le raw 394
    fee_collected ← read_bool raw 396
    outcome_index ← read_u8 raw 397
    activation_lp ← read_u64_le raw 400
    activation_contributed ← read_u64_le raw 408
    gross_lp_total ← read_u64_le raw 416
    ok (record {
      account_type = AccountType.market;
      oracle = oracle;
      creator = creator;
      kass_mint = kass_mint;
      escrow_vault = escrow_vault;
      min_liquidity = min_liquidity;
      total_contributed = total_contributed;
      open_contributions = open_contributions;
      status = status;
      bump = bump;
      escrow_bump = escrow_bump;
      question = question;
      vault = vault;
      yes_mint = yes_mint;
      no_mint = no_mint;
      amm = amm;
      lp_mint = lp_mint;
      lp_vault = lp_vault;
      lp_total = lp_total;
      settled = settled;
      fee_bps = fee_bps;
      fee_collected = fee_collected;
      outcome_index = outcome_index;
      activation_lp = activation_lp;
      activation_contributed = activation_contributed;
      gross_lp_total = gross_lp_total;
    })
