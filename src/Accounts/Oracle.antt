-- ===== src/Accounts/Oracle.antt =====
-- sdks/oracles/ts/src/accounts/oracle.ts, against `Oracle` of programs/oracles/src/state.
pub mod Layout
pub mod Accepts
use kassandra.Base.{
  ℕ, ◌+◌, ◌^◌, ◌<◌, ◌≤◌, ◌≡◌, refl, sym, ap, ◌∙◌, arith, Bool, List, [], ◌∷◌, ◌++◌, length,
  get_elem?, concat, replicate, Result, ok, err, ◌>>=◌, ◌>>◌, if◌then◌else◌, Option, take, min,
  ◌||◌, ◌==◌, some, none, ◌↔◌,
}
use kassandra.Base.Int.{ℤ, IsI64}
use kassandra.Platform.{Platform}
use kassandra.Accounts.Common.{
  AccountType, assert_account, oracle_size, read_pubkey, read_u64_le, read_i64_le, read_u16_le,
  read_u8, read_bool, read_bytes,
}

pub data Phase : Type 0 where
  created proposal fact_proposal fact_voting ai_claim challenge : Phase
  final_recompute resolved invalid_deadend : Phase

-- `raw in Phase ? raw : undefined`
abbrev pub phase_of : ℕ → Option Phase
phase_of raw =
    if raw == 0
    then some created
    else if raw == 1
    then some proposal
    else if raw == 2
    then some fact_proposal
    else if raw == 3
    then some fact_voting
    else if raw == 4
    then some ai_claim
    else if raw == 5
    then some challenge
    else if raw == 6
    then some final_recompute
    else if raw == 7
    then some resolved
    else if raw == 8
    then some invalid_deadend
    else none

pub record Oracle (Address : Type 0) : Type 0 where
  pub account_type : AccountType
  pub creator : Address
  pub kass_mint : Address
  pub usdc_mint : Address
  pub stake_vault : Address
  pub deadline : ℤ
  pub phase_ends_at : ℤ
  pub twap_window : ℤ
  pub options_count : ℕ
  pub phase_raw : ℕ
  pub phase : Option Phase
  pub proposer_count : ℕ
  pub surviving_count : ℕ
  pub fact_count : ℕ
  pub total_oracle_stake : ℕ
  pub bond_pool : ℕ
  pub dispute_bond_total : ℕ
  pub settled_count : ℕ
  pub ai_finalized_count : ℕ
  pub bump : ℕ
  pub resolved_option : ℕ
  pub open_challenge_count : ℕ
  pub threshold_num : ℕ
  pub threshold_den : ℕ
  pub market_threshold_num : ℕ
  pub market_threshold_den : ℕ
  pub flip_slash_num : ℕ
  pub flip_slash_den : ℕ
  pub phase_window : ℤ
  pub proposal_window : ℤ
  pub fact_vote_slash_num : ℕ
  pub fact_vote_slash_den : ℕ
  pub reward_proposer_weight : ℕ
  pub reward_fact_weight : ℕ
  pub challenge_fail_usdc_fee_num : ℕ
  pub challenge_fail_usdc_fee_den : ℕ
  pub challenge_success_kass_fee_num : ℕ
  pub challenge_success_kass_fee_den : ℕ
  pub total_correct_proposer_stake : ℕ
  pub total_approved_fact_stake : ℕ
  pub reward_pool : ℕ
  pub reward_emission : ℕ
  pub min_stake : ℕ

module _ (p : Platform) where
  unfoldable pub decode_oracle : List ℕ → Result (Oracle p.Address)
  decode_oracle raw = do
    assert_account raw AccountType.oracle oracle_size
    phase_raw ← read_u8 raw 161
    creator ← read_pubkey p raw 8
    kass_mint ← read_pubkey p raw 40
    usdc_mint ← read_pubkey p raw 72
    stake_vault ← read_pubkey p raw 104
    deadline ← read_i64_le raw 136
    phase_ends_at ← read_i64_le raw 144
    twap_window ← read_i64_le raw 152
    options_count ← read_u8 raw 160
    proposer_count ← read_u16_le raw 162
    surviving_count ← read_u16_le raw 164
    fact_count ← read_u16_le raw 166
    total_oracle_stake ← read_u64_le raw 168
    bond_pool ← read_u64_le raw 176
    dispute_bond_total ← read_u64_le raw 184
    settled_count ← read_u16_le raw 192
    ai_finalized_count ← read_u16_le raw 194
    bump ← read_u8 raw 196
    resolved_option ← read_u8 raw 197
    open_challenge_count ← read_u16_le raw 198
    threshold_num ← read_u64_le raw 200
    threshold_den ← read_u64_le raw 208
    market_threshold_num ← read_u64_le raw 216
    market_threshold_den ← read_u64_le raw 224
    flip_slash_num ← read_u64_le raw 232
    flip_slash_den ← read_u64_le raw 240
    phase_window ← read_i64_le raw 248
    proposal_window ← read_i64_le raw 256
    fact_vote_slash_num ← read_u64_le raw 264
    fact_vote_slash_den ← read_u64_le raw 272
    reward_proposer_weight ← read_u64_le raw 280
    reward_fact_weight ← read_u64_le raw 288
    challenge_fail_usdc_fee_num ← read_u64_le raw 296
    challenge_fail_usdc_fee_den ← read_u64_le raw 304
    challenge_success_kass_fee_num ← read_u64_le raw 312
    challenge_success_kass_fee_den ← read_u64_le raw 320
    total_correct_proposer_stake ← read_u64_le raw 328
    total_approved_fact_stake ← read_u64_le raw 336
    reward_pool ← read_u64_le raw 344
    reward_emission ← read_u64_le raw 352
    min_stake ← read_u64_le raw 360
    ok (record {
      account_type = AccountType.oracle;
      creator = creator;
      kass_mint = kass_mint;
      usdc_mint = usdc_mint;
      stake_vault = stake_vault;
      deadline = deadline;
      phase_ends_at = phase_ends_at;
      twap_window = twap_window;
      options_count = options_count;
      phase_raw = phase_raw;
      phase = phase_of phase_raw;
      proposer_count = proposer_count;
      surviving_count = surviving_count;
      fact_count = fact_count;
      total_oracle_stake = total_oracle_stake;
      bond_pool = bond_pool;
      dispute_bond_total = dispute_bond_total;
      settled_count = settled_count;
      ai_finalized_count = ai_finalized_count;
      bump = bump;
      resolved_option = resolved_option;
      open_challenge_count = open_challenge_count;
      threshold_num = threshold_num;
      threshold_den = threshold_den;
      market_threshold_num = market_threshold_num;
      market_threshold_den = market_threshold_den;
      flip_slash_num = flip_slash_num;
      flip_slash_den = flip_slash_den;
      phase_window = phase_window;
      proposal_window = proposal_window;
      fact_vote_slash_num = fact_vote_slash_num;
      fact_vote_slash_den = fact_vote_slash_den;
      reward_proposer_weight = reward_proposer_weight;
      reward_fact_weight = reward_fact_weight;
      challenge_fail_usdc_fee_num = challenge_fail_usdc_fee_num;
      challenge_fail_usdc_fee_den = challenge_fail_usdc_fee_den;
      challenge_success_kass_fee_num = challenge_success_kass_fee_num;
      challenge_success_kass_fee_den = challenge_success_kass_fee_den;
      total_correct_proposer_stake = total_correct_proposer_stake;
      total_approved_fact_stake = total_approved_fact_stake;
      reward_pool = reward_pool;
      reward_emission = reward_emission;
      min_stake = min_stake;
    })
