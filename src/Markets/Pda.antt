-- ===== src/Markets/Pda.antt =====
-- sdks/markets/ts/src/pda.ts: the seeds of each derived address.
use kassandra.Base.{ℕ, [], ◌∷◌, Result, ◌>>=◌}
use kassandra.Platform.{Platform}
use kassandra.Bytes.{u8}
use kassandra.Instructions.Payload.{Input, pubkey_bytes}
use kassandra.Instructions.Pda.{Pda, ascii, derive}
use kassandra.Markets.Payload.{MarketIds}

module _ (p : Platform) where
  unfoldable pub config_pda : p.Address → Result (Pda p.Address)
  config_pda program_id = derive p (ascii "config" ∷ []) program_id

  -- Under the loader, which stores the program's data there.
  unfoldable pub program_data_pda : MarketIds p → p.Address → Result (Pda p.Address)
  program_data_pda ids program_id =
      derive p (p.to_bytes program_id ∷ []) ids.bpf_upgradeable_loader_id

  -- `Uint8Array.of(outcomeIndex)` takes the index modulo 256.
  unfoldable pub market_pda : Input p → ℕ → p.Address → Result (Pda p.Address)
  market_pda oracle outcome_index program_id = do
    bytes ← pubkey_bytes p oracle
    derive p (ascii "market" ∷ bytes ∷ u8 outcome_index ∷ []) program_id

  unfoldable pub escrow_pda : Input p → p.Address → Result (Pda p.Address)
  escrow_pda market program_id = do
    bytes ← pubkey_bytes p market
    derive p (ascii "escrow" ∷ bytes ∷ []) program_id

  unfoldable pub contribution_pda : Input p → Input p → p.Address → Result (Pda p.Address)
  contribution_pda market contributor program_id = do
    market_bytes ← pubkey_bytes p market
    contributor_bytes ← pubkey_bytes p contributor
    derive p (ascii "contribution" ∷ market_bytes ∷ contributor_bytes ∷ []) program_id

  unfoldable pub cyes_pda : Input p → p.Address → Result (Pda p.Address)
  cyes_pda market program_id = do
    bytes ← pubkey_bytes p market
    derive p (ascii "cyes" ∷ bytes ∷ []) program_id

  unfoldable pub cno_pda : Input p → p.Address → Result (Pda p.Address)
  cno_pda market program_id = do
    bytes ← pubkey_bytes p market
    derive p (ascii "cno" ∷ bytes ∷ []) program_id

  unfoldable pub lp_vault_pda : Input p → p.Address → Result (Pda p.Address)
  lp_vault_pda market program_id = do
    bytes ← pubkey_bytes p market
    derive p (ascii "lp_vault" ∷ bytes ∷ []) program_id

  unfoldable pub associated_token_account : MarketIds p → Input p → Input p → Result (Pda p.Address)
  associated_token_account ids owner mint = do
    owner_bytes ← pubkey_bytes p owner
    mint_bytes ← pubkey_bytes p mint
    derive p (owner_bytes ∷ p.to_bytes ids.token_program_id ∷ mint_bytes ∷ []) ids.ata_program_id
