-- ===== src/Markets/Metadao/Pda.antt =====
-- sdks/markets/ts/src/metadao/pda.ts.
use kassandra.Base.{ℕ, List, [], ◌∷◌, Result, ok, ◌>>=◌}
use kassandra.Platform.{Platform}
use kassandra.Bytes.{u8}
use kassandra.Instructions.Payload.{Input, pubkey_bytes}
use kassandra.Instructions.Pda.{Pda, ascii, derive}
use kassandra.Markets.Payload.{MarketIds}

module _ (p : Platform) (ids : MarketIds p) where
  unfoldable pub question_pda : List ℕ → Input p → ℕ → Result (Pda p.Address)
  question_pda question_id oracle num_outcomes = do
    bytes ← pubkey_bytes p oracle
    derive p (ascii "question" ∷ question_id ∷ bytes ∷ u8 num_outcomes ∷ [])
        ids.conditional_vault_id

  unfoldable pub conditional_vault_pda : Input p → Input p → Result (Pda p.Address)
  conditional_vault_pda question underlying_mint = do
    question_bytes ← pubkey_bytes p question
    mint_bytes ← pubkey_bytes p underlying_mint
    derive p (ascii "conditional_vault" ∷ question_bytes ∷ mint_bytes ∷ []) ids.conditional_vault_id

  unfoldable pub conditional_token_mint_pda : Input p → ℕ → Result (Pda p.Address)
  conditional_token_mint_pda vault index = do
    bytes ← pubkey_bytes p vault
    derive p (ascii "conditional_token" ∷ bytes ∷ u8 index ∷ []) ids.conditional_vault_id

  unfoldable pub vault_event_authority_pda : Result (Pda p.Address)
  vault_event_authority_pda = derive p (ascii "__event_authority" ∷ []) ids.conditional_vault_id

  unfoldable pub amm_pda : Input p → Input p → Result (Pda p.Address)
  amm_pda base_mint quote_mint = do
    base_bytes ← pubkey_bytes p base_mint
    quote_bytes ← pubkey_bytes p quote_mint
    derive p (ascii "amm__" ∷ base_bytes ∷ quote_bytes ∷ []) ids.amm_v04_id

  unfoldable pub amm_lp_mint_pda : Input p → Result (Pda p.Address)
  amm_lp_mint_pda amm = do
    bytes ← pubkey_bytes p amm
    derive p (ascii "amm_lp_mint" ∷ bytes ∷ []) ids.amm_v04_id

  unfoldable pub amm_event_authority_pda : Result (Pda p.Address)
  amm_event_authority_pda = derive p (ascii "__event_authority" ∷ []) ids.amm_v04_id

  -- The address alone.
  unfoldable pub ata : Input p → Input p → Result p.Address
  ata owner mint = do
    owner_bytes ← pubkey_bytes p owner
    mint_bytes ← pubkey_bytes p mint
    (a, bump) ←
        p.find_program_address (owner_bytes ∷ p.to_bytes ids.token_program_id ∷ mint_bytes ∷ [])
          ids.ata_program_id
    ok a
