-- ===== src/Instructions/Challenge.antt =====
-- sdks/oracles/ts/src/instructions/challenge.ts.
use kassandra.Base.{ℕ, [], ◌∷◌, true, false, Option, Result, ok, ◌>>=◌}
use kassandra.Platform.{Platform}
use kassandra.Bytes.{u64_le}
use kassandra.Instructions.Payload.{
  Ix, Instruction, AddressInput, address, ProgramIds, addr, w, ro, program_or_default, with_disc,
}
use kassandra.Instructions.Pda.{
  protocol_pda, oracle_pda, stake_vault_pda, ai_claim_pda, market_pda, challenge_usdc_vault_pda,
}

pub record OpenChallengeArgs (Address Text : Type 0) : Type 0 where
  pub nonce : ℕ
  pub proposer : AddressInput Address Text
  pub challenger : AddressInput Address Text
  pub question : AddressInput Address Text
  pub kass_vault : AddressInput Address Text
  pub usdc_vault : AddressInput Address Text
  pub pass_amm : AddressInput Address Text
  pub fail_amm : AddressInput Address Text
  pub kass_vault_underlying : AddressInput Address Text
  pub pass_kass_mint : AddressInput Address Text
  pub fail_kass_mint : AddressInput Address Text
  pub oracle_pass_kass : AddressInput Address Text
  pub oracle_fail_kass : AddressInput Address Text
  pub cv_event_authority : AddressInput Address Text
  pub kass_dao : AddressInput Address Text
  pub usdc_mint : AddressInput Address Text
  pub challenger_usdc_src : AddressInput Address Text
  pub program_id : Option Address

pub record SettleChallengeArgs (Address Text : Type 0) : Type 0 where
  pub nonce : ℕ
  pub ai_claim : AddressInput Address Text
  pub proposer : AddressInput Address Text
  pub question : AddressInput Address Text
  pub pass_amm : AddressInput Address Text
  pub fail_amm : AddressInput Address Text
  pub cv_event_authority : AddressInput Address Text
  pub kass_vault : AddressInput Address Text
  pub kass_vault_underlying : AddressInput Address Text
  pub pass_kass_mint : AddressInput Address Text
  pub fail_kass_mint : AddressInput Address Text
  pub oracle_pass_kass : AddressInput Address Text
  pub oracle_fail_kass : AddressInput Address Text
  pub proposer_usdc : AddressInput Address Text
  pub challenger_usdc_dest : AddressInput Address Text
  pub challenger_kass : AddressInput Address Text
  pub program_id : Option Address

module _ (p : Platform) (ids : ProgramIds p) where
  unfoldable pub open_challenge :
      OpenChallengeArgs p.Address p.Text → Result (Instruction p.Address)
  open_challenge args = do
    let program_id = program_or_default p ids args.program_id
    oracle ← oracle_pda p args.nonce program_id
    proposer ← addr p args.proposer
    ai_claim ← ai_claim_pda p (address oracle.address) (address proposer) program_id
    market ← market_pda p (address ai_claim.address) program_id
    stake_vault ← stake_vault_pda p (address oracle.address) program_id
    protocol ← protocol_pda p program_id
    escrow_vault ← challenge_usdc_vault_pda p (address market.address) program_id
    challenger ← addr p args.challenger
    question ← addr p args.question
    kass_vault ← addr p args.kass_vault
    usdc_vault ← addr p args.usdc_vault
    pass_amm ← addr p args.pass_amm
    fail_amm ← addr p args.fail_amm
    kass_vault_underlying ← addr p args.kass_vault_underlying
    pass_kass_mint ← addr p args.pass_kass_mint
    fail_kass_mint ← addr p args.fail_kass_mint
    oracle_pass_kass ← addr p args.oracle_pass_kass
    oracle_fail_kass ← addr p args.oracle_fail_kass
    cv_event_authority ← addr p args.cv_event_authority
    kass_dao ← addr p args.kass_dao
    usdc_mint ← addr p args.usdc_mint
    challenger_usdc_src ← addr p args.challenger_usdc_src
    ok (record {
      program_id = program_id;
      keys =
          w p oracle.address false
          ∷ w p ai_claim.address false
          ∷ w p proposer false
          ∷ w p market.address false
          ∷ w p challenger true
          ∷ ro p question false
          ∷ w p kass_vault false
          ∷ ro p usdc_vault false
          ∷ ro p pass_amm false
          ∷ ro p fail_amm false
          ∷ w p stake_vault.address false
          ∷ w p kass_vault_underlying false
          ∷ w p pass_kass_mint false
          ∷ w p fail_kass_mint false
          ∷ w p oracle_pass_kass false
          ∷ w p oracle_fail_kass false
          ∷ ro p ids.conditional_vault_id false
          ∷ ro p ids.token_program_id false
          ∷ ro p ids.system_program_id false
          ∷ ro p cv_event_authority false
          ∷ ro p protocol.address false
          ∷ ro p kass_dao false
          ∷ ro p usdc_mint false
          ∷ w p challenger_usdc_src false
          ∷ w p escrow_vault.address false
          ∷ [];
      payload = with_disc Ix.open_challenge (u64_le args.nonce ∷ []);
    })

  unfoldable pub settle_challenge :
      SettleChallengeArgs p.Address p.Text → Result (Instruction p.Address)
  settle_challenge args = do
    let program_id = program_or_default p ids args.program_id
    oracle ← oracle_pda p args.nonce program_id
    ai_claim ← addr p args.ai_claim
    market ← market_pda p (address ai_claim) program_id
    stake_vault ← stake_vault_pda p (address oracle.address) program_id
    escrow_vault ← challenge_usdc_vault_pda p (address market.address) program_id
    proposer ← addr p args.proposer
    question ← addr p args.question
    pass_amm ← addr p args.pass_amm
    fail_amm ← addr p args.fail_amm
    cv_event_authority ← addr p args.cv_event_authority
    kass_vault ← addr p args.kass_vault
    kass_vault_underlying ← addr p args.kass_vault_underlying
    pass_kass_mint ← addr p args.pass_kass_mint
    fail_kass_mint ← addr p args.fail_kass_mint
    oracle_pass_kass ← addr p args.oracle_pass_kass
    oracle_fail_kass ← addr p args.oracle_fail_kass
    proposer_usdc ← addr p args.proposer_usdc
    challenger_usdc_dest ← addr p args.challenger_usdc_dest
    challenger_kass ← addr p args.challenger_kass
    ok (record {
      program_id = program_id;
      keys =
          w p oracle.address false
          ∷ w p market.address false
          ∷ ro p ai_claim false
          ∷ w p proposer false
          ∷ w p question false
          ∷ ro p pass_amm false
          ∷ ro p fail_amm false
          ∷ ro p ids.conditional_vault_id false
          ∷ ro p cv_event_authority false
          ∷ ro p ids.token_program_id false
          ∷ w p stake_vault.address false
          ∷ w p kass_vault false
          ∷ w p kass_vault_underlying false
          ∷ w p pass_kass_mint false
          ∷ w p fail_kass_mint false
          ∷ w p oracle_pass_kass false
          ∷ w p oracle_fail_kass false
          ∷ w p escrow_vault.address false
          ∷ w p proposer_usdc false
          ∷ w p challenger_usdc_dest false
          ∷ w p challenger_kass false
          ∷ [];
      payload = with_disc Ix.settle_challenge (u64_le args.nonce ∷ []);
    })
