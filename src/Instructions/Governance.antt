-- ===== src/Instructions/Governance.antt =====
-- sdks/oracles/ts/src/instructions/lifecycle/governance.ts.
use kassandra.Base.{ℕ, List, [], ◌∷◌, true, false, Option, Result, ok, ◌>>=◌}
use kassandra.Base.Int.{ℤ}
use kassandra.Platform.{Platform}
use kassandra.Bytes.{u8, u64_le, i64_le, concat_bytes}
use kassandra.Instructions.Payload.{
  Ix, Instruction, AddressInput, ProgramIds, addr, pubkey_bytes, w, ro, program_or_default,
  with_disc,
}
use kassandra.Instructions.Pda.{protocol_pda}

pub record SetConfigParams : Type 0 where
  pub emission_num : ℕ
  pub emission_den : ℕ
  pub total_supply_cap : ℕ
  pub fee_ema_halflife : ℤ
  pub fee_per_ema_unit : ℕ
  pub fee_ema_increment : ℕ
  pub threshold_num : ℕ
  pub threshold_den : ℕ
  pub market_threshold_num : ℕ
  pub market_threshold_den : ℕ
  pub flip_slash_num : ℕ
  pub flip_slash_den : ℕ
  pub phase_window : ℤ
  pub proposal_window : ℤ
  pub fact_vote_slash_num : ℕ
  pub fact_vote_slash_den : ℕ
  pub reward_proposer_weight : ℕ
  pub reward_fact_weight : ℕ
  pub challenge_fail_usdc_fee_num : ℕ
  pub challenge_fail_usdc_fee_den : ℕ
  pub challenge_success_kass_fee_num : ℕ
  pub challenge_success_kass_fee_den : ℕ
  pub stake_floor_ema_threshold : ℕ
  pub stake_floor_ema_cap : ℕ
  pub stake_floor_max : ℕ

-- The chunks of `encodeSetConfigParams`, in its order.
abbrev pub config_chunks : SetConfigParams → List (List ℕ)
config_chunks c =
    u64_le c.emission_num
    ∷ u64_le c.emission_den
    ∷ u64_le c.total_supply_cap
    ∷ i64_le c.fee_ema_halflife
    ∷ u64_le c.fee_per_ema_unit
    ∷ u64_le c.fee_ema_increment
    ∷ u64_le c.threshold_num
    ∷ u64_le c.threshold_den
    ∷ u64_le c.market_threshold_num
    ∷ u64_le c.market_threshold_den
    ∷ u64_le c.flip_slash_num
    ∷ u64_le c.flip_slash_den
    ∷ i64_le c.phase_window
    ∷ i64_le c.proposal_window
    ∷ u64_le c.fact_vote_slash_num
    ∷ u64_le c.fact_vote_slash_den
    ∷ u64_le c.reward_proposer_weight
    ∷ u64_le c.reward_fact_weight
    ∷ u64_le c.challenge_fail_usdc_fee_num
    ∷ u64_le c.challenge_fail_usdc_fee_den
    ∷ u64_le c.challenge_success_kass_fee_num
    ∷ u64_le c.challenge_success_kass_fee_den
    ∷ u64_le c.stake_floor_ema_threshold
    ∷ u64_le c.stake_floor_ema_cap
    ∷ u64_le c.stake_floor_max
    ∷ []

unfoldable pub encode_set_config_params : SetConfigParams → List ℕ
encode_set_config_params c = concat_bytes (config_chunks c)

pub record SetGovernanceArgs (Address Text : Type 0) : Type 0 where
  pub authority : AddressInput Address Text
  pub dao_authority : AddressInput Address Text
  pub kass_dao : AddressInput Address Text
  pub program_id : Option Address

pub record SetConfigArgs (Address Text : Type 0) : Type 0 where
  pub authority : AddressInput Address Text
  pub params : SetConfigParams
  pub program_id : Option Address

pub record ResolveDeadendArgs (Address Text : Type 0) : Type 0 where
  pub oracle : AddressInput Address Text
  pub authority : AddressInput Address Text
  pub option : ℕ
  pub program_id : Option Address

pub record KassPriceArgs (Address Text : Type 0) : Type 0 where
  pub kass_dao : AddressInput Address Text
  pub program_id : Option Address

module _ (p : Platform) (ids : ProgramIds p) where
  unfoldable pub set_governance :
      SetGovernanceArgs p.Address p.Text → Result (Instruction p.Address)
  set_governance args = do
    let program_id = program_or_default p ids args.program_id
    protocol ← protocol_pda p program_id
    dao_authority ← pubkey_bytes p args.dao_authority
    dao ← pubkey_bytes p args.kass_dao
    let payload = with_disc Ix.set_governance (dao_authority ∷ dao ∷ [])
    authority ← addr p args.authority
    kass_dao ← addr p args.kass_dao
    ok (record {
      program_id = program_id;
      keys = w p protocol.address false ∷ ro p authority true ∷ ro p kass_dao false ∷ [];
      payload = payload;
    })

  unfoldable pub set_config : SetConfigArgs p.Address p.Text → Result (Instruction p.Address)
  set_config args = do
    let program_id = program_or_default p ids args.program_id
    protocol ← protocol_pda p program_id
    let payload = with_disc Ix.set_config (encode_set_config_params args.params ∷ [])
    authority ← addr p args.authority
    ok (record {
      program_id = program_id;
      keys = w p protocol.address false ∷ ro p authority true ∷ [];
      payload = payload;
    })

  unfoldable pub resolve_deadend :
      ResolveDeadendArgs p.Address p.Text → Result (Instruction p.Address)
  resolve_deadend args = do
    let program_id = program_or_default p ids args.program_id
    protocol ← protocol_pda p program_id
    oracle ← addr p args.oracle
    authority ← addr p args.authority
    ok (record {
      program_id = program_id;
      keys = ro p protocol.address false ∷ w p oracle false ∷ ro p authority true ∷ [];
      payload = with_disc Ix.resolve_deadend (u8 args.option ∷ []);
    })

  unfoldable pub kass_price : KassPriceArgs p.Address p.Text → Result (Instruction p.Address)
  kass_price args = do
    let program_id = program_or_default p ids args.program_id
    protocol ← protocol_pda p program_id
    kass_dao ← addr p args.kass_dao
    ok (record {
      program_id = program_id;
      keys = ro p protocol.address false ∷ ro p kass_dao false ∷ [];
      payload = with_disc Ix.kass_price ([]);
    })
