-- ===== src/Accounts/Fact.antt =====
-- sdks/oracles/ts/src/accounts/fact.ts, against `Fact` of programs/oracles/src/state.
pub mod Layout
pub mod Accepts
use kassandra.Base.{
  ℕ, ◌+◌, ◌^◌, ◌<◌, ◌≤◌, ◌≡◌, refl, sym, ap, ◌∙◌, arith, Bool, List, [], ◌∷◌, ◌++◌, length,
  get_elem?, concat, replicate, Result, ok, err, ◌>>=◌, ◌>>◌, if◌then◌else◌, Option, take, min,
  ◌||◌, ◌==◌, some, none, ◌↔◌,
}
use kassandra.Base.Int.{ℤ, IsI64}
use kassandra.Platform.{Platform}
use kassandra.Accounts.Common.{
  AccountType, assert_account, fact_size, read_pubkey, read_u64_le, read_i64_le, read_u16_le,
  read_u8, read_bool, read_bytes,
}

-- `URI_CAP`
abbrev pub uri_cap : ℕ
uri_cap = 200

pub record Fact (Address Text : Type 0) : Type 0 where
  pub account_type : AccountType
  pub oracle : Address
  pub proposer : Address
  pub content_hash : List ℕ
  pub stake : ℕ
  pub approve_stake : ℕ
  pub duplicate_stake : ℕ
  pub uri_len : ℕ
  pub agreed : Bool
  pub duplicate : Bool
  pub settled : Bool
  pub bump : ℕ
  pub uri : Text
  pub uri_raw : List ℕ

module _ (p : Platform) where
  unfoldable pub decode_fact : List ℕ → Result (Fact p.Address p.Text)
  decode_fact raw = do
    assert_account raw AccountType.fact fact_size
    uri_len ← read_u16_le raw 128
    let uri_raw = read_bytes raw 136 200
    let slice_len = min uri_len uri_cap
    let uri = p.text_decode (take slice_len uri_raw)
    oracle ← read_pubkey p raw 8
    proposer ← read_pubkey p raw 40
    let content_hash = read_bytes raw 72 32
    stake ← read_u64_le raw 104
    approve_stake ← read_u64_le raw 112
    duplicate_stake ← read_u64_le raw 120
    agreed ← read_bool raw 130
    duplicate ← read_bool raw 131
    settled ← read_bool raw 132
    bump ← read_u8 raw 133
    ok (record {
      account_type = AccountType.fact;
      oracle = oracle;
      proposer = proposer;
      content_hash = content_hash;
      stake = stake;
      approve_stake = approve_stake;
      duplicate_stake = duplicate_stake;
      uri_len = uri_len;
      agreed = agreed;
      duplicate = duplicate;
      settled = settled;
      bump = bump;
      uri = uri;
      uri_raw = uri_raw;
    })
