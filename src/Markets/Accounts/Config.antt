-- ===== src/Markets/Accounts/Config.antt =====
-- sdks/markets/ts/src/accounts/config.ts, against `Config` of programs/markets/src/state.rs.
pub mod Layout
use kassandra.Base.{ℕ, List, Bool, Result, ok, ◌>>=◌, ◌>>◌}
use kassandra.Platform.{Platform}
use kassandra.Accounts.Common.{read_pubkey, read_u64_le, read_u16_le, read_u8, read_bool}
use kassandra.Markets.Accounts.Common.{AccountType, assert_account, config_size}

pub record Config (Address : Type 0) : Type 0 where
  pub account_type : AccountType
  pub authority : Address
  pub kass_mint : Address
  pub min_liquidity : ℕ
  pub bump : ℕ
  pub fee_bps : ℕ
  pub fee_destination : Address

module _ (p : Platform) where
  unfoldable pub decode_config : List ℕ → Result (Config p.Address)
  decode_config raw = do
    assert_account raw AccountType.config config_size
    authority ← read_pubkey p raw 8
    kass_mint ← read_pubkey p raw 40
    min_liquidity ← read_u64_le raw 72
    bump ← read_u8 raw 80
    fee_bps ← read_u16_le raw 82
    fee_destination ← read_pubkey p raw 84
    ok (record {
      account_type = AccountType.config;
      authority = authority;
      kass_mint = kass_mint;
      min_liquidity = min_liquidity;
      bump = bump;
      fee_bps = fee_bps;
      fee_destination = fee_destination;
    })
