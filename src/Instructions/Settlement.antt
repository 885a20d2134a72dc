-- ===== src/Instructions/Settlement.antt =====
-- sdks/oracles/ts/src/instructions/settlement.ts.
use kassandra.Base.{ℕ, [], ◌∷◌, false, Option, Result, ok, ◌>>=◌}
use kassandra.Platform.{Platform}
use kassandra.Bytes.{u64_le}
use kassandra.Instructions.Payload.{
  Ix, Instruction, AddressInput, address, ProgramIds, addr, w, ro, program_or_default, with_disc,
}
use kassandra.Instructions.Pda.{
  protocol_pda, oracle_pda, stake_vault_pda, challenge_usdc_vault_pda, associated_token_account,
}

pub record ClaimProposerArgs (Address Text : Type 0) : Type 0 where
  pub nonce : ℕ
  pub proposer : AddressInput Address Text
  pub dest_kass : AddressInput Address Text
  pub rent_recipient : AddressInput Address Text
  pub program_id : Option Address

pub record ClaimFactArgs (Address Text : Type 0) : Type 0 where
  pub nonce : ℕ
  pub fact : AddressInput Address Text
  pub dest_kass : AddressInput Address Text
  pub rent_recipient : AddressInput Address Text
  pub program_id : Option Address

pub record ClaimFactVoteArgs (Address Text : Type 0) : Type 0 where
  pub nonce : ℕ
  pub fact_vote : AddressInput Address Text
  pub fact : AddressInput Address Text
  pub dest_kass : AddressInput Address Text
  pub rent_recipient : AddressInput Address Text
  pub program_id : Option Address

pub record CloseAiClaimArgs (Address Text : Type 0) : Type 0 where
  pub oracle : AddressInput Address Text
  pub ai_claim : AddressInput Address Text
  pub rent_recipient : AddressInput Address Text
  pub program_id : Option Address

pub record CloseMarketArgs (Address Text : Type 0) : Type 0 where
  pub nonce : ℕ
  pub market : AddressInput Address Text
  pub rent_recipient : AddressInput Address Text
  pub program_id : Option Address

pub record SweepOracleArgs (Address Text : Type 0) : Type 0 where
  pub nonce : ℕ
  pub kass_mint : AddressInput Address Text
  pub dao_authority : AddressInput Address Text
  pub creator : AddressInput Address Text
  pub program_id : Option Address

module _ (p : Platform) (ids : ProgramIds p) where
  unfoldable pub claim_proposer :
      ClaimProposerArgs p.Address p.Text → Result (Instruction p.Address)
  claim_proposer args = do
    let program_id = program_or_default p ids args.program_id
    oracle ← oracle_pda p args.nonce program_id
    stake_vault ← stake_vault_pda p (address oracle.address) program_id
    proposer ← addr p args.proposer
    dest_kass ← addr p args.dest_kass
    rent_recipient ← addr p args.rent_recipient
    ok (record {
      program_id = program_id;
      keys =
          ro p oracle.address false
          ∷ w p proposer false
          ∷ w p dest_kass false
          ∷ w p stake_vault.address false
          ∷ w p rent_recipient false
          ∷ ro p ids.token_program_id false
          ∷ [];
      payload = with_disc Ix.claim_proposer (u64_le args.nonce ∷ []);
    })

  unfoldable pub claim_fact : ClaimFactArgs p.Address p.Text → Result (Instruction p.Address)
  claim_fact args = do
    let program_id = program_or_default p ids args.program_id
    oracle ← oracle_pda p args.nonce program_id
    stake_vault ← stake_vault_pda p (address oracle.address) program_id
    fact ← addr p args.fact
    dest_kass ← addr p args.dest_kass
    rent_recipient ← addr p args.rent_recipient
    ok (record {
      program_id = program_id;
      keys =
          ro p oracle.address false
          ∷ w p fact false
          ∷ w p dest_kass false
          ∷ w p stake_vault.address false
          ∷ w p rent_recipient false
          ∷ ro p ids.token_program_id false
          ∷ [];
      payload = with_disc Ix.claim_fact (u64_le args.nonce ∷ []);
    })

  unfoldable pub claim_fact_vote :
      ClaimFactVoteArgs p.Address p.Text → Result (Instruction p.Address)
  claim_fact_vote args = do
    let program_id = program_or_default p ids args.program_id
    oracle ← oracle_pda p args.nonce program_id
    stake_vault ← stake_vault_pda p (address oracle.address) program_id
    fact_vote ← addr p args.fact_vote
    fact ← addr p args.fact
    dest_kass ← addr p args.dest_kass
    rent_recipient ← addr p args.rent_recipient
    ok (record {
      program_id = program_id;
      keys =
          ro p oracle.address false
          ∷ w p fact_vote false
          ∷ w p fact false
          ∷ w p dest_kass false
          ∷ w p stake_vault.address false
          ∷ w p rent_recipient false
          ∷ ro p ids.token_program_id false
          ∷ [];
      payload = with_disc Ix.claim_fact_vote (u64_le args.nonce ∷ []);
    })

  unfoldable pub close_ai_claim : CloseAiClaimArgs p.Address p.Text → Result (Instruction p.Address)
  close_ai_claim args = do
    let program_id = program_or_default p ids args.program_id
    oracle ← addr p args.oracle
    ai_claim ← addr p args.ai_claim
    rent_recipient ← addr p args.rent_recipient
    ok (record {
      program_id = program_id;
      keys = ro p oracle false ∷ w p ai_claim false ∷ w p rent_recipient false ∷ [];
      payload = with_disc Ix.close_ai_claim ([]);
    })

  unfoldable pub close_market : CloseMarketArgs p.Address p.Text → Result (Instruction p.Address)
  close_market args = do
    let program_id = program_or_default p ids args.program_id
    oracle ← oracle_pda p args.nonce program_id
    market ← addr p args.market
    escrow_vault ← challenge_usdc_vault_pda p (address market) program_id
    rent_recipient ← addr p args.rent_recipient
    ok (record {
      program_id = program_id;
      keys =
          ro p oracle.address false
          ∷ w p market false
          ∷ w p escrow_vault.address false
          ∷ w p rent_recipient false
          ∷ ro p ids.token_program_id false
          ∷ [];
      payload = with_disc Ix.close_market (u64_le args.nonce ∷ []);
    })

  unfoldable pub sweep_oracle : SweepOracleArgs p.Address p.Text → Result (Instruction p.Address)
  sweep_oracle args = do
    let program_id = program_or_default p ids args.program_id
    oracle ← oracle_pda p args.nonce program_id
    stake_vault ← stake_vault_pda p (address oracle.address) program_id
    protocol ← protocol_pda p program_id
    dao_treasury ← associated_token_account p ids args.dao_authority args.kass_mint
    creator ← addr p args.creator
    ok (record {
      program_id = program_id;
      keys =
          w p oracle.address false
          ∷ w p stake_vault.address false
          ∷ ro p protocol.address false
          ∷ w p dao_treasury.address false
          ∷ w p creator false
          ∷ ro p ids.token_program_id false
          ∷ [];
      payload = with_disc Ix.sweep_oracle (u64_le args.nonce ∷ []);
    })
