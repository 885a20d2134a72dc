-- ===== src/Markets/Flows/Compose/Accounts.antt =====
-- The composed instructions are about the addresses that are returned with them.
use kassandra.Base.{◌≡◌, arith, [], ◌∷◌, some, ok, length}
use kassandra.Platform.{Platform}
use kassandra.Instructions.Payload.{Instruction, AddressInput, addr}
use kassandra.Markets.Payload.{MarketIds}
use kassandra.Markets.Keys.{account_at, call_at}
use kassandra.Markets.Metadao.Vault.{
  initialize_question, initialize_conditional_vault, cond_mints_from,
}
use kassandra.Markets.Metadao.Amm.{create_amm}
use kassandra.Markets.Lifecycle.{activate}
use kassandra.Markets.Flows.Compose.{
  ComposeParams, Composed, compose_refs, compose_market_instructions, activate_instruction,
}

module _ (p : Platform) (ids : MarketIds p) where
  module _ (params : ComposeParams p.Address p.Text) (made : Composed p.Address) (payer : p.Address)
      (h : compose_market_instructions p ids params ≡ ok made)
      (e : addr p params.payer ≡ ok payer) where
    compose_question :
        (length made.instructions ≡ 3)
        × (call_at made.instructions 0 ≡ some (ids.conditional_vault_id, payer ∷ []))
        × (account_at made.instructions 0 0 ≡ some made.refs.question)
    unfolding compose_market_instructions compose_refs initialize_question addr
    compose_question = ground arith

    compose_vault :
        (call_at made.instructions 1 ≡ some (ids.conditional_vault_id, payer ∷ []))
        × (account_at made.instructions 1 0 ≡ some made.refs.vault)
        × (account_at made.instructions 1 1 ≡ some made.refs.question)
        × (account_at made.instructions 1 3 ≡ some made.refs.vault_underlying_ata)
        × (account_at made.instructions 1 10 ≡ some made.refs.yes_mint)
        × (account_at made.instructions 1 11 ≡ some made.refs.no_mint)
    unfolding compose_market_instructions compose_refs initialize_conditional_vault cond_mints_from
        addr
    compose_vault = ground arith

    compose_amm :
        (call_at made.instructions 2 ≡ some (ids.amm_v04_id, payer ∷ []))
        × (account_at made.instructions 2 1 ≡ some made.refs.amm)
        × (account_at made.instructions 2 2 ≡ some made.refs.lp_mint)
        × (account_at made.instructions 2 3 ≡ some made.refs.yes_mint)
        × (account_at made.instructions 2 4 ≡ some made.refs.no_mint)
        × (account_at made.instructions 2 5 ≡ some made.refs.amm_vault_base)
        × (account_at made.instructions 2 6 ≡ some made.refs.amm_vault_quote)
    unfolding compose_market_instructions compose_refs create_amm addr
    compose_amm = ground arith

  -- The three instructions that compose a market, each signed by the payer alone: the first makes the
  -- question of the refs, the second its vault with the vault's own account and the two conditional
  -- mints, the third the pool of these mints with its LP mint and its two vaults.
  pub compose_accounts :
      (params : ComposeParams p.Address p.Text) (made : Composed p.Address) (payer : p.Address)
      → compose_market_instructions p ids params ≡ ok made
      → addr p params.payer ≡ ok payer
      → (length made.instructions ≡ 3)
        × (call_at made.instructions 0 ≡ some (ids.conditional_vault_id, payer ∷ []))
        × (account_at made.instructions 0 0 ≡ some made.refs.question)
        × (call_at made.instructions 1 ≡ some (ids.conditional_vault_id, payer ∷ []))
        × (account_at made.instructions 1 0 ≡ some made.refs.vault)
        × (account_at made.instructions 1 1 ≡ some made.refs.question)
        × (account_at made.instructions 1 3 ≡ some made.refs.vault_underlying_ata)
        × (account_at made.instructions 1 10 ≡ some made.refs.yes_mint)
        × (account_at made.instructions 1 11 ≡ some made.refs.no_mint)
        × (call_at made.instructions 2 ≡ some (ids.amm_v04_id, payer ∷ []))
        × (account_at made.instructions 2 1 ≡ some made.refs.amm)
        × (account_at made.instructions 2 2 ≡ some made.refs.lp_mint)
        × (account_at made.instructions 2 3 ≡ some made.refs.yes_mint)
        × (account_at made.instructions 2 4 ≡ some made.refs.no_mint)
        × (account_at made.instructions 2 5 ≡ some made.refs.amm_vault_base)
        × (account_at made.instructions 2 6 ≡ some made.refs.amm_vault_quote)
  compose_accounts params made payer h e =
      let (n, q0, q) = compose_question params made payer h e in
      let (v0, v1, v2, v3, v4, v5) = compose_vault params made payer h e in
      let (a0, a1, a2, a3, a4, a5, a6) = compose_amm params made payer h e in
      (n, q0, q, v0, v1, v2, v3, v4, v5, a0, a1, a2, a3, a4, a5, a6)

  -- The escrow that activation derives is that of the refs.
  pub activate-compose :
      (params : ComposeParams p.Address p.Text) (made : Composed p.Address)
      (payer : AddressInput p.Address p.Text) (i : Instruction p.Address)
      → compose_market_instructions p ids params ≡ ok made
      → activate_instruction p ids made.refs payer ≡ ok i
      → account_at (i ∷ []) 0 6 ≡ some made.refs.escrow
  unfolding compose_market_instructions compose_refs activate_instruction activate addr
  activate-compose params made payer i h e = ground arith
