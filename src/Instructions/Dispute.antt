-- ===== src/Instructions/Dispute.antt =====
-- sdks/oracles/ts/src/instructions/dispute.ts.
use kassandra.Base.{ℕ, List, [], ◌∷◌, true, false, Option, Result, ok, ◌>>=◌, length}
use kassandra.Platform.{Platform}
use kassandra.Bytes.{u8, u16_le, u64_le}
use kassandra.Instructions.Payload.{
  Ix, Instruction, AddressInput, address, ProgramIds, addr, w, ro, program_or_default, metas,
  fixed_bytes, with_disc,
}
use kassandra.Instructions.Pda.{oracle_pda, stake_vault_pda, fact_pda, fact_vote_pda, ai_claim_pda}

-- A uri is given as bytes or as text.
pub data Uri (Text : Type 0) : Type 0 where
  bytes : List ℕ → Uri Text
  text : Text → Uri Text

unfoldable pub uri_bytes : (p : Platform) → Uri p.Text → List ℕ
uri_bytes p (bytes bs) = bs
uri_bytes p (text t) = p.text_encode t

pub record SubmitFactArgs (Address Text : Type 0) : Type 0 where
  pub oracle : AddressInput Address Text
  pub submitter : AddressInput Address Text
  pub submitter_kass : AddressInput Address Text
  pub content_hash : List ℕ
  pub stake : ℕ
  pub uri : Uri Text
  pub program_id : Option Address

pub record VoteFactArgs (Address Text : Type 0) : Type 0 where
  pub oracle : AddressInput Address Text
  pub fact : AddressInput Address Text
  pub voter : AddressInput Address Text
  pub voter_kass : AddressInput Address Text
  pub kind : ℕ
  pub stake : ℕ
  pub program_id : Option Address

pub record FinalizeFactsArgs (Address Text : Type 0) : Type 0 where
  pub nonce : ℕ
  pub kass_mint : AddressInput Address Text
  pub tail : List (AddressInput Address Text)
  pub program_id : Option Address

pub record SubmitAiClaimArgs (Address Text : Type 0) : Type 0 where
  pub oracle : AddressInput Address Text
  pub proposer : AddressInput Address Text
  pub authority : AddressInput Address Text
  pub model_id : List ℕ
  pub params_hash : List ℕ
  pub io_hash : List ℕ
  pub option : ℕ
  pub program_id : Option Address

pub record FinalizeAiClaimsArgs (Address Text : Type 0) : Type 0 where
  pub oracle : AddressInput Address Text
  pub proposers : List (AddressInput Address Text)
  pub program_id : Option Address

pub record FinalizeOracleArgs (Address Text : Type 0) : Type 0 where
  pub nonce : ℕ
  pub kass_mint : AddressInput Address Text
  pub proposers : List (AddressInput Address Text)
  pub program_id : Option Address

module _ (p : Platform) (ids : ProgramIds p) where
  unfoldable pub submit_fact : SubmitFactArgs p.Address p.Text → Result (Instruction p.Address)
  submit_fact args = do
    let program_id = program_or_default p ids args.program_id
    oracle ← addr p args.oracle
    hash ← fixed_bytes args.content_hash 32
    fact ← fact_pda p (address oracle) hash program_id
    stake_vault ← stake_vault_pda p (address oracle) program_id
    let uri = uri_bytes p args.uri
    let payload =
        with_disc Ix.submit_fact (hash ∷ u64_le args.stake ∷ u16_le (length uri) ∷ uri ∷ [])
    submitter ← addr p args.submitter
    submitter_kass ← addr p args.submitter_kass
    ok (record {
      program_id = program_id;
      keys =
          w p oracle false
          ∷ w p fact.address false
          ∷ w p submitter true
          ∷ w p submitter_kass false
          ∷ w p stake_vault.address false
          ∷ ro p ids.token_program_id false
          ∷ ro p ids.system_program_id false
          ∷ [];
      payload = payload;
    })

  unfoldable pub vote_fact : VoteFactArgs p.Address p.Text → Result (Instruction p.Address)
  vote_fact args = do
    let program_id = program_or_default p ids args.program_id
    oracle ← addr p args.oracle
    fact ← addr p args.fact
    voter ← addr p args.voter
    fact_vote ← fact_vote_pda p (address fact) (address voter) program_id
    stake_vault ← stake_vault_pda p (address oracle) program_id
    let payload = with_disc Ix.vote_fact (u8 args.kind ∷ u64_le args.stake ∷ [])
    voter_kass ← addr p args.voter_kass
    ok (record {
      program_id = program_id;
      keys =
          w p oracle false
          ∷ w p fact false
          ∷ w p fact_vote.address false
          ∷ w p voter true
          ∷ w p voter_kass false
          ∷ w p stake_vault.address false
          ∷ ro p ids.token_program_id false
          ∷ ro p ids.system_program_id false
          ∷ [];
      payload = payload;
    })

  unfoldable pub finalize_facts :
      FinalizeFactsArgs p.Address p.Text → Result (Instruction p.Address)
  finalize_facts args = do
    let program_id = program_or_default p ids args.program_id
    oracle ← oracle_pda p args.nonce program_id
    stake_vault ← stake_vault_pda p (address oracle.address) program_id
    kass_mint ← addr p args.kass_mint
    tail ← metas p (λ k. w p k false) args.tail
    ok (record {
      program_id = program_id;
      keys =
          w p oracle.address false
          ∷ w p kass_mint false
          ∷ w p stake_vault.address false
          ∷ ro p ids.token_program_id false
          ∷ tail;
      payload = with_disc Ix.finalize_facts (u64_le args.nonce ∷ []);
    })

  unfoldable pub submit_ai_claim :
      SubmitAiClaimArgs p.Address p.Text → Result (Instruction p.Address)
  submit_ai_claim args = do
    let program_id = program_or_default p ids args.program_id
    oracle ← addr p args.oracle
    proposer ← addr p args.proposer
    ai_claim ← ai_claim_pda p (address oracle) (address proposer) program_id
    model_id ← fixed_bytes args.model_id 32
    params_hash ← fixed_bytes args.params_hash 32
    io_hash ← fixed_bytes args.io_hash 32
    let payload =
        with_disc Ix.submit_ai_claim (model_id ∷ params_hash ∷ io_hash ∷ u8 args.option ∷ [])
    authority ← addr p args.authority
    ok (record {
      program_id = program_id;
      keys =
          w p oracle false
          ∷ w p proposer false
          ∷ w p ai_claim.address false
          ∷ w p authority true
          ∷ ro p ids.system_program_id false
          ∷ [];
      payload = payload;
    })

  unfoldable pub finalize_ai_claims :
      FinalizeAiClaimsArgs p.Address p.Text → Result (Instruction p.Address)
  finalize_ai_claims args = do
    let program_id = program_or_default p ids args.program_id
    oracle ← addr p args.oracle
    tail ← metas p (λ k. w p k false) args.proposers
    ok (record {
      program_id = program_id;
      keys = w p oracle false ∷ tail;
      payload = with_disc Ix.finalize_ai_claims ([]);
    })

  unfoldable pub finalize_oracle :
      FinalizeOracleArgs p.Address p.Text → Result (Instruction p.Address)
  finalize_oracle args = do
    let program_id = program_or_default p ids args.program_id
    oracle ← oracle_pda p args.nonce program_id
    stake_vault ← stake_vault_pda p (address oracle.address) program_id
    kass_mint ← addr p args.kass_mint
    tail ← metas p (λ k. ro p k false) args.proposers
    ok (record {
      program_id = program_id;
      keys =
          w p oracle.address false
          ∷ w p kass_mint false
          ∷ w p stake_vault.address false
          ∷ ro p ids.token_program_id false
          ∷ tail;
      payload = with_disc Ix.finalize_oracle (u64_le args.nonce ∷ []);
    })
