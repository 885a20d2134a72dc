-- ===== src/Instructions/Pda.antt =====
-- sdks/oracles/ts/src/pda.ts: the seeds of each derived address. The derivation itself is web3.js.
use Prim.Native.Char.{code}
use Prim.Native.String.{String}
use kassandra.Base.{ℕ, List, [], ◌∷◌, Result, ok, ◌>>=◌}
use kassandra.Platform.{Platform}
use kassandra.Bytes.{u64_le}
use kassandra.Instructions.Payload.{ProgramIds, Input, pubkey_bytes}

-- `enc.encode` of a literal, all of which are ASCII.
abbrev pub ascii : String → List ℕ
ascii String.[] = []
ascii (String.◌∷◌ c s) = code c ∷ ascii s

-- A derived address with its bump.
pub record Pda (Address : Type 0) : Type 0 where
  pub address : Address
  pub bump : ℕ

module _ (p : Platform) where
  unfoldable pub derive : List (List ℕ) → p.Address → Result (Pda p.Address)
  derive seeds program_id = do
    (found, bump) ← p.find_program_address seeds program_id
    ok (record { address = found; bump = bump })

  unfoldable pub protocol_pda : p.Address → Result (Pda p.Address)
  protocol_pda program_id = derive (ascii "protocol" ∷ []) program_id

  unfoldable pub mint_authority_pda : p.Address → Result (Pda p.Address)
  mint_authority_pda program_id = derive (ascii "mint_authority" ∷ []) program_id

  unfoldable pub oracle_pda : ℕ → p.Address → Result (Pda p.Address)
  oracle_pda nonce program_id = derive (ascii "oracle" ∷ u64_le nonce ∷ []) program_id

  unfoldable pub stake_vault_pda : Input p → p.Address → Result (Pda p.Address)
  stake_vault_pda oracle program_id = do
    bytes ← pubkey_bytes p oracle
    derive (ascii "vault" ∷ bytes ∷ []) program_id

  unfoldable pub oracle_meta_pda : Input p → p.Address → Result (Pda p.Address)
  oracle_meta_pda oracle program_id = do
    bytes ← pubkey_bytes p oracle
    derive (ascii "oracle_meta" ∷ bytes ∷ []) program_id

  unfoldable pub market_pda : Input p → p.Address → Result (Pda p.Address)
  market_pda ai_claim program_id = do
    bytes ← pubkey_bytes p ai_claim
    derive (ascii "market" ∷ bytes ∷ []) program_id

  unfoldable pub challenge_usdc_vault_pda : Input p → p.Address → Result (Pda p.Address)
  challenge_usdc_vault_pda market program_id = do
    bytes ← pubkey_bytes p market
    derive (ascii "challenge_usdc" ∷ bytes ∷ []) program_id

  unfoldable pub proposer_pda : Input p → Input p → p.Address → Result (Pda p.Address)
  proposer_pda oracle authority program_id = do
    oracle_bytes ← pubkey_bytes p oracle
    authority_bytes ← pubkey_bytes p authority
    derive (ascii "proposer" ∷ oracle_bytes ∷ authority_bytes ∷ []) program_id

  unfoldable pub fact_vote_pda : Input p → Input p → p.Address → Result (Pda p.Address)
  fact_vote_pda fact voter program_id = do
    fact_bytes ← pubkey_bytes p fact
    voter_bytes ← pubkey_bytes p voter
    derive (ascii "vote" ∷ fact_bytes ∷ voter_bytes ∷ []) program_id

  unfoldable pub ai_claim_pda : Input p → Input p → p.Address → Result (Pda p.Address)
  ai_claim_pda oracle proposer program_id = do
    oracle_bytes ← pubkey_bytes p oracle
    proposer_bytes ← pubkey_bytes p proposer
    derive (ascii "claim" ∷ oracle_bytes ∷ proposer_bytes ∷ []) program_id

  unfoldable pub fact_pda : Input p → List ℕ → p.Address → Result (Pda p.Address)
  fact_pda oracle content_hash program_id = do
    bytes ← pubkey_bytes p oracle
    derive (ascii "fact" ∷ bytes ∷ content_hash ∷ []) program_id

  -- Under the associated-token program, whatever the program id.
  unfoldable pub associated_token_account :
      ProgramIds p → Input p → Input p → Result (Pda p.Address)
  associated_token_account ids owner mint = do
    owner_bytes ← pubkey_bytes p owner
    mint_bytes ← pubkey_bytes p mint
    derive (owner_bytes ∷ p.to_bytes ids.token_program_id ∷ mint_bytes ∷ []) ids.ata_program_id
