-- ===== src/Wire.antt =====
-- programs/oracles/src/processor: how the program parses the data behind an instruction's
-- discriminant. `payload[a..b]` panics past the end; the length is checked first.
pub mod RoundTrip
pub mod Config
pub mod Requests
use kassandra.Base.{
  ℕ, ◌+◌, ◌*◌, List, Result, ok, err, invalid_data, ◌>>=◌, ◌>>◌, guard, length, ltb, leb, ◌==◌, not,
  ◌||◌,
}
use kassandra.Base.Int.{ℤ}
use kassandra.Accounts.Common.{slice, read_u8, read_u16_le, read_u64_le, read_i64_le}
use kassandra.Instructions.Governance.{SetConfigParams}

-- `MAX_URI_LEN`
abbrev pub max_uri_len : ℕ
max_uri_len = 200

-- submit_fact.rs: content hash, stake, uri.
unfoldable pub parse_submit_fact : List ℕ → Result (List ℕ × ℕ × List ℕ)
parse_submit_fact payload = do
  guard (leb 42 (length payload)) invalid_data
  stake ← read_u64_le payload 32
  uri_len ← read_u16_le payload 40
  guard (leb uri_len max_uri_len) invalid_data
  guard (leb (42 + uri_len) (length payload)) invalid_data
  guard (length payload == 42 + uri_len) invalid_data
  ok (slice payload 0 32, stake, slice payload 42 uri_len)

-- vote_fact.rs: kind, stake.
unfoldable pub parse_vote_fact : List ℕ → Result (ℕ × ℕ)
parse_vote_fact payload = do
  guard (length payload == 9) invalid_data
  kind ← read_u8 payload 0
  guard (kind == 0 || kind == 1) invalid_data
  stake ← read_u64_le payload 1
  ok (kind, stake)

-- propose.rs: option, bond.
unfoldable pub parse_propose : List ℕ → Result (ℕ × ℕ)
parse_propose payload = do
  guard (length payload == 9) invalid_data
  option ← read_u8 payload 0
  bond ← read_u64_le payload 1
  ok (option, bond)

-- create_oracle.rs: nonce, options_count, deadline, twap_window.
unfoldable pub parse_create_oracle : List ℕ → Result (ℕ × ℕ × ℤ × ℤ)
parse_create_oracle payload = do
  guard (length payload == 25) invalid_data
  nonce ← read_u64_le payload 0
  options_count ← read_u8 payload 8
  deadline ← read_i64_le payload 9
  twap_window ← read_i64_le payload 17
  ok (nonce, options_count, deadline, twap_window)

-- submit_ai_claim.rs: model_id, params_hash, io_hash, option.
unfoldable pub parse_submit_ai_claim : List ℕ → Result (List ℕ × List ℕ × List ℕ × ℕ)
parse_submit_ai_claim payload = do
  guard (length payload == 97) invalid_data
  option ← read_u8 payload 96
  ok (slice payload 0 32, slice payload 32 32, slice payload 64 32, option)

-- set_config.rs: the `i`-th field of eight bytes.
unfoldable pub u64_at : List ℕ → ℕ → Result ℕ
u64_at payload i = read_u64_le payload (i * 8)

unfoldable pub i64_at : List ℕ → ℕ → Result ℤ
i64_at payload i = read_i64_le payload (i * 8)

unfoldable pub parse_set_config : List ℕ → Result SetConfigParams
parse_set_config payload = do
  guard (length payload == 200) invalid_data
  emission_num ← u64_at payload 0
  emission_den ← u64_at payload 1
  total_supply_cap ← u64_at payload 2
  fee_ema_halflife ← i64_at payload 3
  fee_per_ema_unit ← u64_at payload 4
  fee_ema_increment ← u64_at payload 5
  threshold_num ← u64_at payload 6
  threshold_den ← u64_at payload 7
  market_threshold_num ← u64_at payload 8
  market_threshold_den ← u64_at payload 9
  flip_slash_num ← u64_at payload 10
  flip_slash_den ← u64_at payload 11
  phase_window ← i64_at payload 12
  proposal_window ← i64_at payload 13
  fact_vote_slash_num ← u64_at payload 14
  fact_vote_slash_den ← u64_at payload 15
  reward_proposer_weight ← u64_at payload 16
  reward_fact_weight ← u64_at payload 17
  challenge_fail_usdc_fee_num ← u64_at payload 18
  challenge_fail_usdc_fee_den ← u64_at payload 19
  challenge_success_kass_fee_num ← u64_at payload 20
  challenge_success_kass_fee_den ← u64_at payload 21
  stake_floor_ema_threshold ← u64_at payload 22
  stake_floor_ema_cap ← u64_at payload 23
  stake_floor_max ← u64_at payload 24
  ok (record {
    emission_num = emission_num;
    emission_den = emission_den;
    total_supply_cap = total_supply_cap;
    fee_ema_halflife = fee_ema_halflife;
    fee_per_ema_unit = fee_per_ema_unit;
    fee_ema_increment = fee_ema_increment;
    threshold_num = threshold_num;
    threshold_den = threshold_den;
    market_threshold_num = market_threshold_num;
    market_threshold_den = market_threshold_den;
    flip_slash_num = flip_slash_num;
    flip_slash_den = flip_slash_den;
    phase_window = phase_window;
    proposal_window = proposal_window;
    fact_vote_slash_num = fact_vote_slash_num;
    fact_vote_slash_den = fact_vote_slash_den;
    reward_proposer_weight = reward_proposer_weight;
    reward_fact_weight = reward_fact_weight;
    challenge_fail_usdc_fee_num = challenge_fail_usdc_fee_num;
    challenge_fail_usdc_fee_den = challenge_fail_usdc_fee_den;
    challenge_success_kass_fee_num = challenge_success_kass_fee_num;
    challenge_success_kass_fee_den = challenge_success_kass_fee_den;
    stake_floor_ema_threshold = stake_floor_ema_threshold;
    stake_floor_ema_cap = stake_floor_ema_cap;
    stake_floor_max = stake_floor_max;
  })
