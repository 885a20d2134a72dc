-- ===== src/Accounts/Protocol.antt =====
-- sdks/oracles/ts/src/accounts/protocol.ts, against `Protocol` of programs/oracles/src/state.
pub mod Layout
pub mod Accepts
use kassandra.Base.{
  ℕ, ◌+◌, ◌^◌, ◌<◌, ◌≤◌, ◌≡◌, refl, sym, ap, ◌∙◌, arith, Bool, List, [], ◌∷◌, ◌++◌, length,
  get_elem?, concat, replicate, Result, ok, err, ◌>>=◌, ◌>>◌, if◌then◌else◌, Option, take, min,
  ◌||◌, ◌==◌, some, none, ◌↔◌,
}
use kassandra.Base.Int.{ℤ, IsI64}
use kassandra.Platform.{Platform}
use kassandra.Accounts.Common.{
  AccountType, assert_account, protocol_size, read_pubkey, read_u64_le, read_i64_le, read_u16_le,
  read_u8, read_bool, read_bytes,
}

pub record Protocol (Address : Type 0) : Type 0 where
  pub account_type : AccountType
  pub admin : Address
  pub kass_mint : Address
  pub usdc_mint : Address
  pub fee_ema : ℕ
  pub last_creation_unix : ℤ
  pub bump : ℕ
  pub governance_set : Bool
  pub dao_authority : Address
  pub kass_dao : Address
  pub emission_num : ℕ
  pub emission_den : ℕ
  pub total_supply_cap : ℕ
  pub fee_ema_halflife : ℤ
  pub fee_per_ema_unit : ℕ
  pub fee_ema_increment : ℕ
  pub threshold_num : ℕ
  pub threshold_den : ℕ
  pub market_threshold_num : ℕ
  pub market_threshold_den : ℕ
  pub flip_slash_num : ℕ
  pub flip_slash_den : ℕ
  pub phase_window : ℤ
  pub proposal_window : ℤ
  pub fact_vote_slash_num : ℕ
  pub fact_vote_slash_den : ℕ
  pub reward_proposer_weight : ℕ
  pub reward_fact_weight : ℕ
  pub challenge_fail_usdc_fee_num : ℕ
  pub challenge_fail_usdc_fee_den : ℕ
  pub challenge_success_kass_fee_num : ℕ
  pub challenge_success_kass_fee_den : ℕ
  pub stake_floor_ema_threshold : ℕ
  pub stake_floor_ema_cap : ℕ
  pub stake_floor_max : ℕ

module _ (p : Platform) where
  unfoldable pub decode_protocol : List ℕ → Result (Protocol p.Address)
  decode_protocol raw = do
    assert_account raw AccountType.protocol protocol_size
    admin ← read_pubkey p raw 8
    kass_mint ← read_pubkey p raw 40
    usdc_mint ← read_pubkey p raw 72
    fee_ema ← read_u64_le raw 104
    last_creation_unix ← read_i64_le raw 112
    bump ← read_u8 raw 120
    governance_set ← read_bool raw 121
    dao_authority ← read_pubkey p raw 128
    kass_dao ← read_pubkey p raw 160
    emission_num ← read_u64_le raw 192
    emission_den ← read_u64_le raw 200
    total_supply_cap ← read_u64_le raw 208
    fee_ema_halflife ← read_i64_le raw 216
    fee_per_ema_unit ← read_u64_le raw 224
    fee_ema_increment ← read_u64_le raw 232
    threshold_num ← read_u64_le raw 240
    threshold_den ← read_u64_le raw 248
    market_threshold_num ← read_u64_le raw 256
    market_threshold_den ← read_u64_le raw 264
    flip_slash_num ← read_u64_le raw 272
    flip_slash_den ← read_u64_le raw 280
    phase_window ← read_i64_le raw 288
    proposal_window ← read_i64_le raw 296
    fact_vote_slash_num ← read_u64_le raw 304
    fact_vote_slash_den ← read_u64_le raw 312
    reward_proposer_weight ← read_u64_le raw 320
    reward_fact_weight ← read_u64_le raw 328
    challenge_fail_usdc_fee_num ← read_u64_le raw 336
    challenge_fail_usdc_fee_den ← read_u64_le raw 344
    challenge_success_kass_fee_num ← read_u64_le raw 352
    challenge_success_kass_fee_den ← read_u64_le raw 360
    stake_floor_ema_threshold ← read_u64_le raw 368
    stake_floor_ema_cap ← read_u64_le raw 376
    stake_floor_max ← read_u64_le raw 384
    ok (record {
      account_type = AccountType.protocol;
      admin = admin;
      kass_mint = kass_mint;
      usdc_mint = usdc_mint;
      fee_ema = fee_ema;
      last_creation_unix = last_creation_unix;
      bump = bump;
      governance_set = governance_set;
      dao_authority = dao_authority;
      kass_dao = kass_dao;
      emission_num = emission_num;
      emission_den = emission_den;
      total_supply_cap = total_supply_cap;
      fee_ema_halflife = fee_ema_halflife;
      fee_per_ema_unit = fee_per_ema_unit;
      fee_ema_increment = fee_ema_increment;
      threshold_num = threshold_num;
      threshold_den = threshold_den;
      market_threshold_num = market_threshold_num;
      market_threshold_den = market_threshold_den;
      flip_slash_num = flip_slash_num;
      flip_slash_den = flip_slash_den;
      phase_window = phase_window;
      proposal_window = proposal_window;
      fact_vote_slash_num = fact_vote_slash_num;
      fact_vote_slash_den = fact_vote_slash_den;
      reward_proposer_weight = reward_proposer_weight;
      reward_fact_weight = reward_fact_weight;
      challenge_fail_usdc_fee_num = challenge_fail_usdc_fee_num;
      challenge_fail_usdc_fee_den = challenge_fail_usdc_fee_den;
      challenge_success_kass_fee_num = challenge_success_kass_fee_num;
      challenge_success_kass_fee_den = challenge_success_kass_fee_den;
      stake_floor_ema_threshold = stake_floor_ema_threshold;
      stake_floor_ema_cap = stake_floor_ema_cap;
      stake_floor_max = stake_floor_max;
    })
