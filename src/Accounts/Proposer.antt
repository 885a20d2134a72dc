-- ===== src/Accounts/Proposer.antt =====
-- sdks/oracles/ts/src/accounts/proposer.ts, against `Proposer` of programs/oracles/src/state.
pub mod Layout
pub mod Accepts
use kassandra.Base.{
  ℕ, ◌+◌, ◌^◌, ◌<◌, ◌≤◌, ◌≡◌, refl, sym, ap, ◌∙◌, arith, Bool, List, [], ◌∷◌, ◌++◌, length,
  get_elem?, concat, replicate, Result, ok, err, ◌>>=◌, ◌>>◌, if◌then◌else◌, Option, take, min,
  ◌||◌, ◌==◌, some, none, ◌↔◌,
}
use kassandra.Base.Int.{ℤ, IsI64}
use kassandra.Platform.{Platform}
use kassandra.Accounts.Common.{
  AccountType, assert_account, proposer_size, read_pubkey, read_u64_le, read_i64_le, read_u16_le,
  read_u8, read_bool, read_bytes,
}

pub record Proposer (Address : Type 0) : Type 0 where
  pub account_type : AccountType
  pub oracle : Address
  pub authority : Address
  pub bond : ℕ
  pub original_option : ℕ
  pub claim_option : ℕ
  pub disqualified : Bool
  pub slashed : Bool
  pub flipped : Bool
  pub bump : ℕ
  pub ai_finalized : Bool
  pub slashed_amount : ℕ

module _ (p : Platform) where
  unfoldable pub decode_proposer : List ℕ → Result (Proposer p.Address)
  decode_proposer raw = do
    assert_account raw AccountType.proposer proposer_size
    oracle ← read_pubkey p raw 8
    authority ← read_pubkey p raw 40
    bond ← read_u64_le raw 72
    original_option ← read_u8 raw 80
    claim_option ← read_u8 raw 81
    disqualified ← read_bool raw 82
    slashed ← read_bool raw 83
    flipped ← read_bool raw 84
    bump ← read_u8 raw 85
    ai_finalized ← read_bool raw 86
    slashed_amount ← read_u64_le raw 88
    ok (record {
      account_type = AccountType.proposer;
      oracle = oracle;
      authority = authority;
      bond = bond;
      original_option = original_option;
      claim_option = claim_option;
      disqualified = disqualified;
      slashed = slashed;
      flipped = flipped;
      bump = bump;
      ai_finalized = ai_finalized;
      slashed_amount = slashed_amount;
    })
