-- ===== src/Accounts/AiClaim.antt =====
-- sdks/oracles/ts/src/accounts/aiClaim.ts, against `AiClaim` of programs/oracles/src/state.
pub mod Layout
pub mod Accepts
use kassandra.Base.{
  ℕ, ◌+◌, ◌^◌, ◌<◌, ◌≤◌, ◌≡◌, refl, sym, ap, ◌∙◌, arith, Bool, List, [], ◌∷◌, ◌++◌, length,
  get_elem?, concat, replicate, Result, ok, err, ◌>>=◌, ◌>>◌, if◌then◌else◌, Option, take, min,
  ◌||◌, ◌==◌, some, none, ◌↔◌,
}
use kassandra.Base.Int.{ℤ, IsI64}
use kassandra.Platform.{Platform}
use kassandra.Accounts.Common.{
  AccountType, assert_account, ai_claim_size, read_pubkey, read_u64_le, read_i64_le, read_u16_le,
  read_u8, read_bool, read_bytes,
}

pub record AiClaim (Address : Type 0) : Type 0 where
  pub account_type : AccountType
  pub oracle : Address
  pub proposer : Address
  pub model_id : List ℕ
  pub params_hash : List ℕ
  pub io_hash : List ℕ
  pub option : ℕ
  pub challenged : Bool
  pub bump : ℕ
  pub authority : Address

module _ (p : Platform) where
  unfoldable pub decode_ai_claim : List ℕ → Result (AiClaim p.Address)
  decode_ai_claim raw = do
    assert_account raw AccountType.ai_claim ai_claim_size
    oracle ← read_pubkey p raw 8
    proposer ← read_pubkey p raw 40
    let model_id = read_bytes raw 72 32
    let params_hash = read_bytes raw 104 32
    let io_hash = read_bytes raw 136 32
    option ← read_u8 raw 168
    challenged ← read_bool raw 169
    bump ← read_u8 raw 170
    authority ← read_pubkey p raw 176
    ok (record {
      account_type = AccountType.ai_claim;
      oracle = oracle;
      proposer = proposer;
      model_id = model_id;
      params_hash = params_hash;
      io_hash = io_hash;
      option = option;
      challenged = challenged;
      bump = bump;
      authority = authority;
    })
