-- ===== src/Instructions/Lifecycle.antt =====
-- sdks/oracles/ts/src/instructions/lifecycle/oracle-setup.ts and proposals.ts.
use kassandra.Base.{ℕ, List, [], ◌∷◌, ◌++◌, true, false, Option, Result, ok, ◌>>=◌, length}
use kassandra.Base.Int.{ℤ}
use kassandra.Platform.{Platform}
use kassandra.Bytes.{u8, u16_le, u64_le, i64_le}
use kassandra.Instructions.Payload.{
  Ix, Instruction, AddressInput, address, ProgramIds, addr, w, ro, program_or_default, metas,
  fixed_bytes, with_disc,
}
use kassandra.Instructions.Pda.{
  protocol_pda, mint_authority_pda, oracle_pda, stake_vault_pda, oracle_meta_pda, proposer_pda,
}

-- The chunks that the loop over the options pushes.
abbrev pub option_parts : (p : Platform) → List p.Text → List (List ℕ)
option_parts p [] = []
option_parts p (o ∷ os) = let b = p.text_encode o in u16_le (length b) ∷ b ∷ option_parts p os

pub record InitProtocolArgs (Address Text : Type 0) : Type 0 where
  pub admin : AddressInput Address Text
  pub kass_mint : AddressInput Address Text
  pub usdc_mint : AddressInput Address Text
  pub program_id : Option Address

pub record CreateOracleArgs (Address Text : Type 0) : Type 0 where
  pub nonce : ℕ
  pub options_count : ℕ
  pub deadline : ℤ
  pub twap_window : ℤ
  pub creator : AddressInput Address Text
  pub creator_kass_token : AddressInput Address Text
  pub kass_mint : AddressInput Address Text
  pub usdc_mint : AddressInput Address Text
  pub program_id : Option Address

pub record WriteOracleMetaArgs (Address Text : Type 0) : Type 0 where
  pub oracle : AddressInput Address Text
  pub creator : AddressInput Address Text
  pub subject : Text
  pub options : List Text
  pub uri : Text
  pub uri_hash : List ℕ
  pub program_id : Option Address

pub record ProposeArgs (Address Text : Type 0) : Type 0 where
  pub oracle : AddressInput Address Text
  pub authority : AddressInput Address Text
  pub authority_kass : AddressInput Address Text
  pub option : ℕ
  pub bond : ℕ
  pub program_id : Option Address

pub record FinalizeProposalsArgs (Address Text : Type 0) : Type 0 where
  pub oracle : AddressInput Address Text
  pub proposers : List (AddressInput Address Text)
  pub program_id : Option Address

pub record AdvancePhaseArgs (Address Text : Type 0) : Type 0 where
  pub oracle : AddressInput Address Text
  pub program_id : Option Address

module _ (p : Platform) (ids : ProgramIds p) where
  unfoldable pub init_protocol : InitProtocolArgs p.Address p.Text → Result (Instruction p.Address)
  init_protocol args = do
    let program_id = program_or_default p ids args.program_id
    protocol ← protocol_pda p program_id
    admin ← addr p args.admin
    kass_mint ← addr p args.kass_mint
    usdc_mint ← addr p args.usdc_mint
    ok (record {
      program_id = program_id;
      keys =
          w p protocol.address false
          ∷ w p admin true
          ∷ ro p kass_mint false
          ∷ ro p usdc_mint false
          ∷ ro p ids.system_program_id false
          ∷ [];
      payload = with_disc Ix.init_protocol ([]);
    })

  unfoldable pub create_oracle : CreateOracleArgs p.Address p.Text → Result (Instruction p.Address)
  create_oracle args = do
    let program_id = program_or_default p ids args.program_id
    protocol ← protocol_pda p program_id
    oracle ← oracle_pda p args.nonce program_id
    stake_vault ← stake_vault_pda p (address oracle.address) program_id
    mint_authority ← mint_authority_pda p program_id
    let payload = with_disc Ix.create_oracle (
        u64_le args.nonce
        ∷ u8 args.options_count
        ∷ i64_le args.deadline
        ∷ i64_le args.twap_window
        ∷ [])
    creator ← addr p args.creator
    kass_mint ← addr p args.kass_mint
    usdc_mint ← addr p args.usdc_mint
    creator_kass_token ← addr p args.creator_kass_token
    ok (record {
      program_id = program_id;
      keys =
          w p protocol.address false
          ∷ w p oracle.address false
          ∷ w p stake_vault.address false
          ∷ w p creator true
          ∷ w p kass_mint false
          ∷ ro p usdc_mint false
          ∷ ro p ids.token_program_id false
          ∷ ro p ids.system_program_id false
          ∷ w p creator_kass_token false
          ∷ ro p mint_authority.address false
          ∷ [];
      payload = payload;
    })

  unfoldable pub write_oracle_meta :
      WriteOracleMetaArgs p.Address p.Text → Result (Instruction p.Address)
  write_oracle_meta args = do
    let program_id = program_or_default p ids args.program_id
    oracle ← addr p args.oracle
    meta ← oracle_meta_pda p (address oracle) program_id
    let subject = p.text_encode args.subject
    let uri = p.text_encode args.uri
    hash ← fixed_bytes args.uri_hash 32
    let parts =
        u16_le (length subject) ∷ subject ∷ u8 (length args.options) ∷ option_parts p args.options
        ++ (u16_le (length uri) ∷ uri ∷ hash ∷ [])
    creator ← addr p args.creator
    ok (record {
      program_id = program_id;
      keys =
          w p creator true
          ∷ ro p oracle false
          ∷ w p meta.address false
          ∷ ro p ids.system_program_id false
          ∷ [];
      payload = with_disc Ix.write_oracle_meta parts;
    })

  unfoldable pub propose : ProposeArgs p.Address p.Text → Result (Instruction p.Address)
  propose args = do
    let program_id = program_or_default p ids args.program_id
    oracle ← addr p args.oracle
    authority ← addr p args.authority
    proposer ← proposer_pda p (address oracle) (address authority) program_id
    stake_vault ← stake_vault_pda p (address oracle) program_id
    let payload = with_disc Ix.propose (u8 args.option ∷ u64_le args.bond ∷ [])
    authority_kass ← addr p args.authority_kass
    ok (record {
      program_id = program_id;
      keys =
          w p oracle false
          ∷ w p proposer.address false
          ∷ w p authority true
          ∷ w p authority_kass false
          ∷ w p stake_vault.address false
          ∷ ro p ids.token_program_id false
          ∷ ro p ids.system_program_id false
          ∷ [];
      payload = payload;
    })

  unfoldable pub finalize_proposals :
      FinalizeProposalsArgs p.Address p.Text → Result (Instruction p.Address)
  finalize_proposals args = do
    let program_id = program_or_default p ids args.program_id
    oracle ← addr p args.oracle
    tail ← metas p (λ k. ro p k false) args.proposers
    ok (record {
      program_id = program_id;
      keys = w p oracle false ∷ tail;
      payload = with_disc Ix.finalize_proposals ([]);
    })

  unfoldable pub advance_phase : AdvancePhaseArgs p.Address p.Text → Result (Instruction p.Address)
  advance_phase args = do
    let program_id = program_or_default p ids args.program_id
    oracle ← addr p args.oracle
    ok (record {
      program_id = program_id;
      keys = w p oracle false ∷ [];
      payload = with_disc Ix.advance_phase ([]);
    })
