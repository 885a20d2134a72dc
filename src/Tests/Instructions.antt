-- ===== src/Tests/Instructions.antt =====
-- The builders and the program's parsers at one call each.
use kassandra.Base.{
  ℕ, ◌≡◌, refl, arith, [], ◌∷◌, ◌++◌, none, some, ok, err, Result, replicate, drop, get_elem?,
}
use kassandra.Base.Int.{pos, negsuc}
use kassandra.Tests.Sample.{sample, sample_ids, byte_key}
use kassandra.Accounts.Common.{AccountType}
use kassandra.Accounts.Meta.{decode_oracle_meta}
use kassandra.Bytes.{le, u64_le}
use kassandra.Instructions.Payload.{
  AddressInput, address, Instruction, addr, pubkey_bytes, fixed_bytes,
}
use kassandra.Instructions.Pda.{
  derive, stake_vault_pda, proposer_pda, oracle_pda, oracle_meta_pda, protocol_pda,
  mint_authority_pda,
}
use kassandra.Instructions.Lifecycle.{
  ProposeArgs, CreateOracleArgs, WriteOracleMetaArgs, propose, create_oracle, write_oracle_meta,
}
use kassandra.Instructions.Governance.{SetConfigParams, SetConfigArgs, set_config}
use kassandra.Instructions.Calls.{Call, signing, SignedBy}
use kassandra.Instructions.Promises.{build_lem}
use kassandra.Instructions.MetaBody.{decode_oracle_meta-write_oracle_meta}
use kassandra.Wire.{parse_create_oracle, parse_set_config}
use kassandra.Wire.Requests.{Request, parse-request}
use kassandra.Wire.Config.{FitsConfig, parse-set_config}

abbrev Made : Type 0
Made = Instruction sample.Address

abbrev Given : Type 0
Given = AddressInput sample.Address sample.Text

abbrev at_byte : ℕ → Given
at_byte b = address (byte_key b)

-- What a builder returns, and an empty instruction where it throws.
abbrev made : Result Made → Made
made (ok i) = i
made (err e) = record { program_id = byte_key 0; keys = []; payload = [] }

abbrev propose_args : ProposeArgs sample.Address sample.Text
propose_args = record {
  oracle = at_byte 11;
  authority = at_byte 12;
  authority_kass = at_byte 13;
  option = 2;
  bond = 5000;
  program_id = none;
}

build_lem_example :
    ((made (propose sample sample_ids propose_args)).program_id ≡ sample_ids.kassandra_program_id)
    × (get_elem? (made (propose sample sample_ids propose_args)).payload 0 ≡ some 11)
    × SignedBy sample
        (some (at_byte 12))
        (signing (made (propose sample sample_ids propose_args)).keys)
unfolding propose addr pubkey_bytes derive stake_vault_pda proposer_pda
build_lem_example =
    build_lem sample sample_ids (Call.propose propose_args)
      (made (propose sample sample_ids propose_args)) refl

abbrev create_args : CreateOracleArgs sample.Address sample.Text
create_args = record {
  nonce = 7;
  options_count = 3;
  deadline = pos 1700000000;
  twap_window = negsuc 4;
  creator = at_byte 31;
  creator_kass_token = at_byte 32;
  kass_mint = at_byte 33;
  usdc_mint = at_byte 34;
  program_id = none;
}

parse-request_example :
    parse_create_oracle (drop 1 (made (create_oracle sample sample_ids create_args)).payload)
    ≡ ok (7, 3, pos 1700000000, negsuc 4)
unfolding create_oracle addr pubkey_bytes derive stake_vault_pda oracle_pda protocol_pda u64_le le
    mint_authority_pda
parse-request_example =
    parse-request sample sample_ids Request.oracle create_args
      (made (create_oracle sample sample_ids create_args)) refl
      (omega arith, omega arith, omega arith, omega arith)

abbrev meta_args : WriteOracleMetaArgs sample.Address sample.Text
meta_args = record {
  oracle = at_byte 11;
  creator = at_byte 31;
  subject = 87 ∷ 104 ∷ 111 ∷ [];
  options = (65 ∷ []) ∷ (66 ∷ 67 ∷ []) ∷ [];
  uri = 104 ∷ [];
  uri_hash = replicate 32 8;
  program_id = none;
}

decode_oracle_meta-write_oracle_meta_example :
    decode_oracle_meta sample (
      8
      ∷ 254
      ∷ (replicate 32 11 ++ drop 1 (made (write_oracle_meta sample sample_ids meta_args)).payload))
    ≡ ok (record {
      account_type = AccountType.oracle_meta;
      oracle = byte_key 11;
      subject = 87 ∷ 104 ∷ 111 ∷ [];
      options = (65 ∷ []) ∷ (66 ∷ 67 ∷ []) ∷ [];
      uri = 104 ∷ [];
      uri_hash = replicate 32 8;
    })
unfolding write_oracle_meta addr pubkey_bytes derive oracle_meta_pda fixed_bytes
decode_oracle_meta-write_oracle_meta_example =
    decode_oracle_meta-write_oracle_meta sample sample_ids meta_args
      (made (write_oracle_meta sample sample_ids meta_args)) (byte_key 11) 254 refl
      (refl, omega arith) ((refl, omega arith), ((refl, omega arith), tt)) (omega arith)
      (refl, omega arith)

abbrev params : SetConfigParams
params = record {
  emission_num = 1;
  emission_den = 2;
  total_supply_cap = 3;
  fee_ema_halflife = pos 103;
  fee_per_ema_unit = 5;
  fee_ema_increment = 6;
  threshold_num = 7;
  threshold_den = 8;
  market_threshold_num = 9;
  market_threshold_den = 10;
  flip_slash_num = 11;
  flip_slash_den = 12;
  phase_window = pos 112;
  proposal_window = pos 113;
  fact_vote_slash_num = 15;
  fact_vote_slash_den = 16;
  reward_proposer_weight = 17;
  reward_fact_weight = 18;
  challenge_fail_usdc_fee_num = 19;
  challenge_fail_usdc_fee_den = 20;
  challenge_success_kass_fee_num = 21;
  challenge_success_kass_fee_den = 22;
  stake_floor_ema_threshold = 23;
  stake_floor_ema_cap = 24;
  stake_floor_max = 25;
}

abbrev config_args : SetConfigArgs sample.Address sample.Text
config_args = record { authority = at_byte 61; params = params; program_id = none }

abbrev params-Fits : FitsConfig params
params-Fits = record {
  emission_num = omega arith;
  emission_den = omega arith;
  total_supply_cap = omega arith;
  fee_ema_halflife = omega arith;
  fee_per_ema_unit = omega arith;
  fee_ema_increment = omega arith;
  threshold_num = omega arith;
  threshold_den = omega arith;
  market_threshold_num = omega arith;
  market_threshold_den = omega arith;
  flip_slash_num = omega arith;
  flip_slash_den = omega arith;
  phase_window = omega arith;
  proposal_window = omega arith;
  fact_vote_slash_num = omega arith;
  fact_vote_slash_den = omega arith;
  reward_proposer_weight = omega arith;
  reward_fact_weight = omega arith;
  challenge_fail_usdc_fee_num = omega arith;
  challenge_fail_usdc_fee_den = omega arith;
  challenge_success_kass_fee_num = omega arith;
  challenge_success_kass_fee_den = omega arith;
  stake_floor_ema_threshold = omega arith;
  stake_floor_ema_cap = omega arith;
  stake_floor_max = omega arith;
}

parse-set_config_example :
    parse_set_config (drop 1 (made (set_config sample sample_ids config_args)).payload) ≡ ok params
unfolding set_config addr pubkey_bytes derive protocol_pda
parse-set_config_example =
    parse-set_config sample sample_ids config_args (made (set_config sample sample_ids config_args))
      refl params-Fits
