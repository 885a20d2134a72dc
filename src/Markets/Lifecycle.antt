-- ===== src/Markets/Lifecycle.antt =====
-- sdks/markets/ts/src/instructions/market/lifecycle.ts, but for the two builders of Liquidity.
use kassandra.Base.{[], ◌∷◌, true, false, Option, Result, ok, ◌>>=◌}
use kassandra.Platform.{Platform}
use kassandra.Instructions.Payload.{Instruction, AddressInput, addr, w, ro}
use kassandra.Markets.Payload.{Ix, MarketIds, program_or_default, input_or, with_disc}
use kassandra.Markets.Pda.{escrow_pda, contribution_pda, cyes_pda, cno_pda, lp_vault_pda}

pub record ActivateArgs (Address Text : Type 0) : Type 0 where
  pub market : AddressInput Address Text
  pub oracle : AddressInput Address Text
  pub payer : AddressInput Address Text
  pub question : AddressInput Address Text
  pub vault : AddressInput Address Text
  pub vault_underlying_ata : AddressInput Address Text
  pub yes_mint : AddressInput Address Text
  pub no_mint : AddressInput Address Text
  pub market_cyes : AddressInput Address Text
  pub market_cno : AddressInput Address Text
  pub amm : AddressInput Address Text
  pub lp_mint : AddressInput Address Text
  pub lp_vault : AddressInput Address Text
  pub amm_vault_base : AddressInput Address Text
  pub amm_vault_quote : AddressInput Address Text
  pub cv_event_authority : AddressInput Address Text
  pub amm_event_authority : AddressInput Address Text
  pub cv_program : Option (AddressInput Address Text)
  pub amm_program : Option (AddressInput Address Text)
  pub token_program : Option (AddressInput Address Text)
  pub system_program : Option (AddressInput Address Text)
  pub program_id : Option Address

pub record ClaimLpArgs (Address Text : Type 0) : Type 0 where
  pub market : AddressInput Address Text
  pub contributor : AddressInput Address Text
  pub contributor_lp_ata : AddressInput Address Text
  pub program_id : Option Address

pub record ResolveMarketArgs (Address Text : Type 0) : Type 0 where
  pub market : AddressInput Address Text
  pub oracle : AddressInput Address Text
  pub question : AddressInput Address Text
  pub cv_event_authority : AddressInput Address Text
  pub cv_program : Option (AddressInput Address Text)
  pub program_id : Option Address

pub record CloseMarketArgs (Address Text : Type 0) : Type 0 where
  pub market : AddressInput Address Text
  pub creator : AddressInput Address Text
  pub program_id : Option Address

module _ (p : Platform) (ids : MarketIds p) where
  unfoldable pub activate : ActivateArgs p.Address p.Text → Result (Instruction p.Address)
  activate args = do
    let program_id = program_or_default p ids args.program_id
    escrow ← escrow_pda p args.market program_id
    market ← addr p args.market
    oracle ← addr p args.oracle
    payer ← addr p args.payer
    question ← addr p args.question
    vault ← addr p args.vault
    vault_underlying_ata ← addr p args.vault_underlying_ata
    yes_mint ← addr p args.yes_mint
    no_mint ← addr p args.no_mint
    market_cyes ← addr p args.market_cyes
    market_cno ← addr p args.market_cno
    amm ← addr p args.amm
    lp_mint ← addr p args.lp_mint
    lp_vault ← addr p args.lp_vault
    amm_vault_base ← addr p args.amm_vault_base
    amm_vault_quote ← addr p args.amm_vault_quote
    cv_event_authority ← addr p args.cv_event_authority
    cv_program ← addr p (input_or p args.cv_program ids.conditional_vault_id)
    amm_event_authority ← addr p args.amm_event_authority
    amm_program ← addr p (input_or p args.amm_program ids.amm_v04_id)
    token_program ← addr p (input_or p args.token_program ids.token_program_id)
    system_program ← addr p (input_or p args.system_program ids.system_program_id)
    ok (record {
      program_id = program_id;
      keys =
          w p market false
          ∷ ro p oracle false
          ∷ w p payer true
          ∷ ro p question false
          ∷ w p vault false
          ∷ w p vault_underlying_ata false
          ∷ w p escrow.address false
          ∷ w p yes_mint false
          ∷ w p no_mint false
          ∷ w p market_cyes false
          ∷ w p market_cno false
          ∷ w p amm false
          ∷ w p lp_mint false
          ∷ w p lp_vault false
          ∷ w p amm_vault_base false
          ∷ w p amm_vault_quote false
          ∷ ro p cv_event_authority false
          ∷ ro p cv_program false
          ∷ ro p amm_event_authority false
          ∷ ro p amm_program false
          ∷ ro p token_program false
          ∷ ro p system_program false
          ∷ [];
      payload = with_disc Ix.activate ([]);
    })

  unfoldable pub claim_lp : ClaimLpArgs p.Address p.Text → Result (Instruction p.Address)
  claim_lp args = do
    let program_id = program_or_default p ids args.program_id
    lp_vault ← lp_vault_pda p args.market program_id
    contribution ← contribution_pda p args.market args.contributor program_id
    market ← addr p args.market
    contributor_lp_ata ← addr p args.contributor_lp_ata
    contributor ← addr p args.contributor
    ok (record {
      program_id = program_id;
      keys =
          w p market false
          ∷ w p lp_vault.address false
          ∷ w p contribution.address false
          ∷ w p contributor_lp_ata false
          ∷ w p contributor false
          ∷ ro p ids.token_program_id false
          ∷ [];
      payload = with_disc Ix.claim_lp ([]);
    })

  unfoldable pub resolve_market :
      ResolveMarketArgs p.Address p.Text → Result (Instruction p.Address)
  resolve_market args = do
    let program_id = program_or_default p ids args.program_id
    market ← addr p args.market
    oracle ← addr p args.oracle
    question ← addr p args.question
    cv_event_authority ← addr p args.cv_event_authority
    cv_program ← addr p (input_or p args.cv_program ids.conditional_vault_id)
    ok (record {
      program_id = program_id;
      keys =
          w p market false
          ∷ ro p oracle false
          ∷ w p question false
          ∷ ro p cv_event_authority false
          ∷ ro p cv_program false
          ∷ [];
      payload = with_disc Ix.resolve_market ([]);
    })

  unfoldable pub close_market : CloseMarketArgs p.Address p.Text → Result (Instruction p.Address)
  close_market args = do
    let program_id = program_or_default p ids args.program_id
    escrow ← escrow_pda p args.market program_id
    cyes ← cyes_pda p args.market program_id
    cno ← cno_pda p args.market program_id
    lp_vault ← lp_vault_pda p args.market program_id
    market ← addr p args.market
    creator ← addr p args.creator
    ok (record {
      program_id = program_id;
      keys =
          w p market false
          ∷ w p creator false
          ∷ w p escrow.address false
          ∷ w p cyes.address false
          ∷ w p cno.address false
          ∷ w p lp_vault.address false
          ∷ ro p ids.token_program_id false
          ∷ [];
      payload = with_disc Ix.close_market ([]);
    })
