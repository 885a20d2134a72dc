-- ===== src/Markets/Liquidity.antt =====
-- `collectFee` and `addLiquidity` of sdks/markets/ts/src/instructions/market/lifecycle.ts.
use kassandra.Base.{ℕ, [], ◌∷◌, true, false, Option, Result, ok, ◌>>=◌}
use kassandra.Platform.{Platform}
use kassandra.Bytes.{u64_le}
use kassandra.Instructions.Payload.{Instruction, AddressInput, addr, w, ro}
use kassandra.Markets.Payload.{Ix, MarketIds, program_or_default, input_or, with_disc}
use kassandra.Markets.Pda.{
  config_pda, escrow_pda, contribution_pda, cyes_pda, cno_pda, lp_vault_pda,
}
use kassandra.Markets.Metadao.Pda.{ata}

pub record CollectFeeArgs (Address Text : Type 0) : Type 0 where
  pub market : AddressInput Address Text
  pub fee_destination : AddressInput Address Text
  pub question : AddressInput Address Text
  pub vault : AddressInput Address Text
  pub vault_underlying_ata : AddressInput Address Text
  pub yes_mint : AddressInput Address Text
  pub no_mint : AddressInput Address Text
  pub market_cyes : AddressInput Address Text
  pub market_cno : AddressInput Address Text
  pub amm : AddressInput Address Text
  pub lp_mint : AddressInput Address Text
  pub lp_vault : AddressInput Address Text
  pub amm_vault_base : AddressInput Address Text
  pub amm_vault_quote : AddressInput Address Text
  pub cv_event_authority : AddressInput Address Text
  pub amm_event_authority : AddressInput Address Text
  pub cv_program : Option (AddressInput Address Text)
  pub amm_program : Option (AddressInput Address Text)
  pub token_program : Option (AddressInput Address Text)
  pub program_id : Option Address

pub record AddLiquidityArgs (Address Text : Type 0) : Type 0 where
  pub market : AddressInput Address Text
  pub oracle : AddressInput Address Text
  pub depositor : AddressInput Address Text
  pub kass_mint : AddressInput Address Text
  pub question : AddressInput Address Text
  pub vault : AddressInput Address Text
  pub vault_underlying_ata : AddressInput Address Text
  pub yes_mint : AddressInput Address Text
  pub no_mint : AddressInput Address Text
  pub amm : AddressInput Address Text
  pub lp_mint : AddressInput Address Text
  pub amm_vault_base : AddressInput Address Text
  pub amm_vault_quote : AddressInput Address Text
  pub cv_event_authority : AddressInput Address Text
  pub amm_event_authority : AddressInput Address Text
  pub amount : ℕ
  pub quote_amount : ℕ
  pub max_base_amount : ℕ
  pub min_lp_tokens : ℕ
  pub cv_program : Option (AddressInput Address Text)
  pub amm_program : Option (AddressInput Address Text)
  pub token_program : Option (AddressInput Address Text)
  pub system_program : Option (AddressInput Address Text)
  pub program_id : Option Address

module _ (p : Platform) (ids : MarketIds p) where
  unfoldable pub collect_fee : CollectFeeArgs p.Address p.Text → Result (Instruction p.Address)
  collect_fee args = do
    let program_id = program_or_default p ids args.program_id
    config ← config_pda p program_id
    escrow ← escrow_pda p args.market program_id
    market ← addr p args.market
    fee_destination ← addr p args.fee_destination
    question ← addr p args.question
    vault ← addr p args.vault
    vault_underlying_ata ← addr p args.vault_underlying_ata
    yes_mint ← addr p args.yes_mint
    no_mint ← addr p args.no_mint
    market_cyes ← addr p args.market_cyes
    market_cno ← addr p args.market_cno
    amm ← addr p args.amm
    lp_mint ← addr p args.lp_mint
    lp_vault ← addr p args.lp_vault
    amm_vault_base ← addr p args.amm_vault_base
    amm_vault_quote ← addr p args.amm_vault_quote
    cv_event_authority ← addr p args.cv_event_authority
    cv_program ← addr p (input_or p args.cv_program ids.conditional_vault_id)
    amm_event_authority ← addr p args.amm_event_authority
    amm_program ← addr p (input_or p args.amm_program ids.amm_v04_id)
    token_program ← addr p (input_or p args.token_program ids.token_program_id)
    ok (record {
      program_id = program_id;
      keys =
          w p market false
          ∷ ro p config.address false
          ∷ w p fee_destination false
          ∷ ro p question false
          ∷ w p vault false
          ∷ w p vault_underlying_ata false
          ∷ w p escrow.address false
          ∷ w p yes_mint false
          ∷ w p no_mint false
          ∷ w p market_cyes false
          ∷ w p market_cno false
          ∷ w p amm false
          ∷ w p lp_mint false
          ∷ w p lp_vault false
          ∷ w p amm_vault_base false
          ∷ w p amm_vault_quote false
          ∷ ro p cv_event_authority false
          ∷ ro p cv_program false
          ∷ ro p amm_event_authority false
          ∷ ro p amm_program false
          ∷ ro p token_program false
          ∷ [];
      payload = with_disc Ix.collect_fee ([]);
    })

  unfoldable pub add_liquidity : AddLiquidityArgs p.Address p.Text → Result (Instruction p.Address)
  add_liquidity args = do
    let program_id = program_or_default p ids args.program_id
    escrow ← escrow_pda p args.market program_id
    cyes ← cyes_pda p args.market program_id
    cno ← cno_pda p args.market program_id
    lp_vault ← lp_vault_pda p args.market program_id
    contribution ← contribution_pda p args.market args.depositor program_id
    depositor_kass_ata ← ata p ids args.depositor args.kass_mint
    depositor_cyes_ata ← ata p ids args.depositor args.yes_mint
    depositor_cno_ata ← ata p ids args.depositor args.no_mint
    market ← addr p args.market
    oracle ← addr p args.oracle
    depositor ← addr p args.depositor
    question ← addr p args.question
    vault ← addr p args.vault
    vault_underlying_ata ← addr p args.vault_underlying_ata
    yes_mint ← addr p args.yes_mint
    no_mint ← addr p args.no_mint
    amm ← addr p args.amm
    lp_mint ← addr p args.lp_mint
    amm_vault_base ← addr p args.amm_vault_base
    amm_vault_quote ← addr p args.amm_vault_quote
    cv_event_authority ← addr p args.cv_event_authority
    cv_program ← addr p (input_or p args.cv_program ids.conditional_vault_id)
    amm_event_authority ← addr p args.amm_event_authority
    amm_program ← addr p (input_or p args.amm_program ids.amm_v04_id)
    token_program ← addr p (input_or p args.token_program ids.token_program_id)
    system_program ← addr p (input_or p args.system_program ids.system_program_id)
    ok (record {
      program_id = program_id;
      keys =
          w p market false
          ∷ ro p oracle false
          ∷ w p depositor true
          ∷ w p depositor_kass_ata false
          ∷ w p escrow.address false
          ∷ ro p question false
          ∷ w p vault false
          ∷ w p vault_underlying_ata false
          ∷ w p yes_mint false
          ∷ w p no_mint false
          ∷ w p cyes.address false
          ∷ w p cno.address false
          ∷ w p depositor_cyes_ata false
          ∷ w p depositor_cno_ata false
          ∷ w p amm false
          ∷ w p lp_mint false
          ∷ w p lp_vault.address false
          ∷ w p amm_vault_base false
          ∷ w p amm_vault_quote false
          ∷ w p contribution.address false
          ∷ ro p cv_event_authority false
          ∷ ro p cv_program false
          ∷ ro p amm_event_authority false
          ∷ ro p amm_program false
          ∷ ro p token_program false
          ∷ ro p system_program false
          ∷ [];
      payload = with_disc Ix.add_liquidity (
          u64_le args.amount
          ∷ u64_le args.quote_amount
          ∷ u64_le args.max_base_amount
          ∷ u64_le args.min_lp_tokens
          ∷ []);
    })
