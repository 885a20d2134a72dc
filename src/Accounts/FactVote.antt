-- ===== src/Accounts/FactVote.antt =====
-- sdks/oracles/ts/src/accounts/factVote.ts, against `FactVote` of programs/oracles/src/state.
pub mod Layout
pub mod Accepts
use kassandra.Base.{
  ℕ, ◌+◌, ◌^◌, ◌<◌, ◌≤◌, ◌≡◌, refl, sym, ap, ◌∙◌, arith, Bool, List, [], ◌∷◌, ◌++◌, length,
  get_elem?, concat, replicate, Result, ok, err, ◌>>=◌, ◌>>◌, if◌then◌else◌, Option, take, min,
  ◌||◌, ◌==◌, some, none, ◌↔◌,
}
use kassandra.Base.Int.{ℤ, IsI64}
use kassandra.Platform.{Platform}
use kassandra.Accounts.Common.{
  AccountType, assert_account, fact_vote_size, read_pubkey, read_u64_le, read_i64_le, read_u16_le,
  read_u8, read_bool, read_bytes,
}

-- `VOTE_APPROVE` is 0 and `VOTE_DUPLICATE` is 1.
pub data VoteKind : Type 0 where
  approve duplicate : VoteKind

abbrev pub vote_kind_of : ℕ → Option VoteKind
vote_kind_of raw = if raw == 0 then some approve else if raw == 1 then some duplicate else none

pub record FactVote (Address : Type 0) : Type 0 where
  pub account_type : AccountType
  pub fact : Address
  pub voter : Address
  pub stake : ℕ
  pub kind_raw : ℕ
  pub kind : Option VoteKind
  pub bump : ℕ

module _ (p : Platform) where
  unfoldable pub decode_fact_vote : List ℕ → Result (FactVote p.Address)
  decode_fact_vote raw = do
    assert_account raw AccountType.fact_vote fact_vote_size
    kind_raw ← read_u8 raw 80
    fact ← read_pubkey p raw 8
    voter ← read_pubkey p raw 40
    stake ← read_u64_le raw 72
    bump ← read_u8 raw 81
    ok (record {
      account_type = AccountType.fact_vote;
      fact = fact;
      voter = voter;
      stake = stake;
      kind_raw = kind_raw;
      kind = vote_kind_of kind_raw;
      bump = bump;
    })
