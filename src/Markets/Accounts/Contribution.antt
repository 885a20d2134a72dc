-- ===== src/Markets/Accounts/Contribution.antt =====
-- sdks/markets/ts/src/accounts/contribution.ts, against `Contribution` of programs/markets/src/state.rs.
pub mod Layout
use kassandra.Base.{ℕ, List, Bool, Result, ok, ◌>>=◌, ◌>>◌}
use kassandra.Platform.{Platform}
use kassandra.Accounts.Common.{read_pubkey, read_u64_le, read_u16_le, read_u8, read_bool}
use kassandra.Markets.Accounts.Common.{AccountType, assert_account, contribution_size}

pub record Contribution (Address : Type 0) : Type 0 where
  pub account_type : AccountType
  pub market : Address
  pub contributor : Address
  pub amount : ℕ
  pub claimed : Bool
  pub bump : ℕ
  pub late_lp : ℕ

module _ (p : Platform) where
  unfoldable pub decode_contribution : List ℕ → Result (Contribution p.Address)
  decode_contribution raw = do
    assert_account raw AccountType.contribution contribution_size
    market ← read_pubkey p raw 8
    contributor ← read_pubkey p raw 40
    amount ← read_u64_le raw 72
    claimed ← read_bool raw 80
    bump ← read_u8 raw 81
    late_lp ← read_u64_le raw 88
    ok (record {
      account_type = AccountType.contribution;
      market = market;
      contributor = contributor;
      amount = amount;
      claimed = claimed;
      bump = bump;
      late_lp = late_lp;
    })
