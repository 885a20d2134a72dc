-- ===== src/Markets/Flows/AddLiquidity/Ensured.antt =====
-- The token accounts that a deposit needs are made before it.
use kassandra.Base.{◌≡◌, arith, [], ◌∷◌, ok}
use kassandra.Platform.{Platform}
use kassandra.Instructions.Payload.{addr, pubkey_bytes}
use kassandra.Instructions.Pda.{derive}
use kassandra.Markets.Payload.{MarketIds}
use kassandra.Markets.Keys.{account_at, signers, programs}
use kassandra.Markets.Pda.{associated_token_account}
use kassandra.Markets.Metadao.Pda.{ata}
use kassandra.Markets.Liquidity.{add_liquidity}
use kassandra.Markets.Flows.Atas.{
  ensure_conditional_atas_instructions, payer_or, kass_ata, create_idempotent_ata,
  create_ata_idempotent_instruction,
}
use kassandra.Markets.Flows.AddLiquidity.{
  AddLiquidityFlowParams, AddLiquidityFlowResult, add_liquidity_instructions,
}

module _ (p : Platform) (ids : MarketIds p) where
  -- A deposit is four instructions: the first three make the depositor's accounts for cYES, cNO and
  -- KASS, and these are the accounts that the fourth, the deposit, names in its places for them; all
  -- are signed by the depositor.
  pub add_liquidity_ensured :
      (params : AddLiquidityFlowParams p.Address p.Text) (made : AddLiquidityFlowResult p.Address)
      (depositor : p.Address)
      → add_liquidity_instructions p ids params ≡ ok made
      → addr p params.depositor ≡ ok depositor
      → (programs made.instructions
          ≡ ids.ata_program_id ∷ ids.ata_program_id ∷ ids.ata_program_id ∷ ids.market_program_id
            ∷ [])
        × (signers made.instructions
            ≡ (depositor ∷ []) ∷ (depositor ∷ []) ∷ (depositor ∷ []) ∷ (depositor ∷ []) ∷ [])
        × (account_at made.instructions 3 12 ≡ account_at made.instructions 0 1)
        × (account_at made.instructions 3 13 ≡ account_at made.instructions 1 1)
        × (account_at made.instructions 3 3 ≡ account_at made.instructions 2 1)
  unfolding add_liquidity_instructions add_liquidity ensure_conditional_atas_instructions payer_or
      kass_ata create_idempotent_ata create_ata_idempotent_instruction associated_token_account ata
      addr pubkey_bytes derive
  add_liquidity_ensured params made depositor h e = ground arith
