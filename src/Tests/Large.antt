-- ===== src/Tests/Large.antt =====
-- The decoders of fixed-size accounts at one Oracle account.
use kassandra.Base.{ℕ, List, ◌≡◌, refl, arith, ◌∷◌, some, ok, concat}
use kassandra.Base.Int.{pos, negsuc}
use kassandra.Accounts.Common.{AccountType}
use kassandra.Accounts.Layout.{header}
use kassandra.Markets.Accounts.Oracle.{decode_market_oracle}
use kassandra.Markets.Accounts.Agrees.{decode_market_oracle-decode_oracle}
use kassandra.Tests.Sample.{sample, byte_key}
use kassandra.Accounts.Oracle.{Oracle, decode_oracle, Phase}
use kassandra.Accounts.Oracle.Layout.{oracle_fields, FitsOracle}
use kassandra.Accounts.Kinds.{Kind}
use kassandra.Accounts.Layouts.{decode_account-layout}

abbrev pub oracle_at : Oracle sample.Address
oracle_at = record {
  account_type = AccountType.oracle;
  creator = byte_key 12;
  kass_mint = byte_key 13;
  usdc_mint = byte_key 14;
  stake_vault = byte_key 15;
  deadline = negsuc 3;
  phase_ends_at = pos 17000;
  twap_window = negsuc 18;
  options_count = 19;
  phase_raw = 5;
  phase = some Phase.challenge;
  proposer_count = 22;
  surviving_count = 23;
  fact_count = 24;
  total_oracle_stake = 25;
  bond_pool = 26;
  dispute_bond_total = 27;
  settled_count = 28;
  ai_finalized_count = 29;
  bump = 30;
  resolved_option = 31;
  open_challenge_count = 32;
  threshold_num = 33;
  threshold_den = 34;
  market_threshold_num = 35;
  market_threshold_den = 36;
  flip_slash_num = 37;
  flip_slash_den = 38;
  phase_window = pos 39000;
  proposal_window = negsuc 40;
  fact_vote_slash_num = 41;
  fact_vote_slash_den = 42;
  reward_proposer_weight = 43;
  reward_fact_weight = 44;
  challenge_fail_usdc_fee_num = 45;
  challenge_fail_usdc_fee_den = 46;
  challenge_success_kass_fee_num = 47;
  challenge_success_kass_fee_den = 48;
  total_correct_proposer_stake = 49;
  total_approved_fact_stake = 50;
  reward_pool = 51;
  reward_emission = 52;
  min_stake = 53;
}

abbrev oracle_at-Fits : FitsOracle sample oracle_at
oracle_at-Fits = record {
  tagged = refl;
  deadline = omega arith;
  phase_ends_at = omega arith;
  twap_window = omega arith;
  options_count = omega arith;
  phase_raw = omega arith;
  proposer_count = omega arith;
  surviving_count = omega arith;
  fact_count = omega arith;
  total_oracle_stake = omega arith;
  bond_pool = omega arith;
  dispute_bond_total = omega arith;
  settled_count = omega arith;
  ai_finalized_count = omega arith;
  bump = omega arith;
  resolved_option = omega arith;
  open_challenge_count = omega arith;
  threshold_num = omega arith;
  threshold_den = omega arith;
  market_threshold_num = omega arith;
  market_threshold_den = omega arith;
  flip_slash_num = omega arith;
  flip_slash_den = omega arith;
  phase_window = omega arith;
  proposal_window = omega arith;
  fact_vote_slash_num = omega arith;
  fact_vote_slash_den = omega arith;
  reward_proposer_weight = omega arith;
  reward_fact_weight = omega arith;
  challenge_fail_usdc_fee_num = omega arith;
  challenge_fail_usdc_fee_den = omega arith;
  challenge_success_kass_fee_num = omega arith;
  challenge_success_kass_fee_den = omega arith;
  total_correct_proposer_stake = omega arith;
  total_approved_fact_stake = omega arith;
  reward_pool = omega arith;
  reward_emission = omega arith;
  min_stake = omega arith;
  phase = refl;
}

decode_account-layout_example :
    decode_oracle sample (concat (header AccountType.oracle ∷ oracle_fields sample oracle_at))
    ≡ ok oracle_at
decode_account-layout_example =
    decode_account-layout sample Kind.oracle oracle_at
      (concat (header AccountType.oracle ∷ oracle_fields sample oracle_at)) refl oracle_at-Fits

abbrev oracle_raw : List ℕ
oracle_raw = concat (header AccountType.oracle ∷ oracle_fields sample oracle_at)

decode_market_oracle-decode_oracle_example :
    decode_market_oracle oracle_raw
    ≡ ok (record { options_count = 19; phase = 5; resolved_option = 31 })
decode_market_oracle-decode_oracle_example =
    decode_market_oracle-decode_oracle sample oracle_raw oracle_at
      (decode_account-layout sample Kind.oracle oracle_at oracle_raw refl oracle_at-Fits)
