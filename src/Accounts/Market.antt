-- ===== src/Accounts/Market.antt =====
-- sdks/oracles/ts/src/accounts/market.ts, against `Market` of programs/oracles/src/state.
pub mod Layout
pub mod Accepts
use kassandra.Base.{
  ℕ, ◌+◌, ◌^◌, ◌<◌, ◌≤◌, ◌≡◌, refl, sym, ap, ◌∙◌, arith, Bool, List, [], ◌∷◌, ◌++◌, length,
  get_elem?, concat, replicate, Result, ok, err, ◌>>=◌, ◌>>◌, if◌then◌else◌, Option, take, min,
  ◌||◌, ◌==◌, some, none, ◌↔◌,
}
use kassandra.Base.Int.{ℤ, IsI64}
use kassandra.Platform.{Platform}
use kassandra.Accounts.Common.{
  AccountType, assert_account, market_size, read_pubkey, read_u64_le, read_i64_le, read_u16_le,
  read_u8, read_bool, read_bytes,
}

pub record Market (Address : Type 0) : Type 0 where
  pub account_type : AccountType
  pub oracle : Address
  pub ai_claim : Address
  pub proposer : Address
  pub challenger : Address
  pub question : Address
  pub kass_vault : Address
  pub usdc_vault : Address
  pub pass_amm : Address
  pub fail_amm : Address
  pub oracle_pass_kass : Address
  pub oracle_fail_kass : Address
  pub challenger_usdc_vault : Address
  pub twap_end : ℤ
  pub challenger_usdc : ℕ
  pub settled : Bool
  pub bump : ℕ

module _ (p : Platform) where
  unfoldable pub decode_market : List ℕ → Result (Market p.Address)
  decode_market raw = do
    assert_account raw AccountType.market market_size
    oracle ← read_pubkey p raw 8
    ai_claim ← read_pubkey p raw 40
    proposer ← read_pubkey p raw 72
    challenger ← read_pubkey p raw 104
    question ← read_pubkey p raw 136
    kass_vault ← read_pubkey p raw 168
    usdc_vault ← read_pubkey p raw 200
    pass_amm ← read_pubkey p raw 232
    fail_amm ← read_pubkey p raw 264
    oracle_pass_kass ← read_pubkey p raw 296
    oracle_fail_kass ← read_pubkey p raw 328
    challenger_usdc_vault ← read_pubkey p raw 360
    twap_end ← read_i64_le raw 392
    challenger_usdc ← read_u64_le raw 400
    settled ← read_bool raw 408
    bump ← read_u8 raw 409
    ok (record {
      account_type = AccountType.market;
      oracle = oracle;
      ai_claim = ai_claim;
      proposer = proposer;
      challenger = challenger;
      question = question;
      kass_vault = kass_vault;
      usdc_vault = usdc_vault;
      pass_amm = pass_amm;
      fail_amm = fail_amm;
      oracle_pass_kass = oracle_pass_kass;
      oracle_fail_kass = oracle_fail_kass;
      challenger_usdc_vault = challenger_usdc_vault;
      twap_end = twap_end;
      challenger_usdc = challenger_usdc;
      settled = settled;
      bump = bump;
    })
