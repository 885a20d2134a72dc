-- ===== src/Tests/Flows.antt =====
-- The flows of the market SDK at one call each.
use kassandra.Base.{◌≤◌, ◌≡◌, refl, arith, List, [], ◌∷◌, none, some, length, max, ◌*◌}
use kassandra.Bytes.{u8, u64_le}
use kassandra.Tests.Sample.{sample, byte_key}
use kassandra.Instructions.Payload.{addr, pubkey_bytes, metas}
use kassandra.Instructions.Pda.{derive}
use kassandra.Markets.Keys.{account_at, call_at, payload_at, signers, programs}
use kassandra.Markets.Pda
use kassandra.Markets.Metadao.Pda as Metadao
use kassandra.Markets.Metadao.Vault.{split_tokens, interact_with_vault}
use kassandra.Markets.Metadao.Amm.{swap, given_or_ata}
use kassandra.Markets.Funding.{create_market}
use kassandra.Markets.Liquidity.{add_liquidity}
use kassandra.Markets.Flows.Atas.{
  ensure_conditional_atas_instructions, payer_or, kass_ata, create_idempotent_ata,
  create_ata_idempotent_instruction,
}
use kassandra.Markets.Flows.Trade.{
  BuyParams, Traded, buy_instructions, is_yes, user_conditional_atas,
}
use kassandra.Markets.Flows.Trade.Legs.{buy_legs, amount_of, side_of}
use kassandra.Markets.Flows.CreateAll.{
  CreateAllParams, CreateAllStep, create_all_outcome_markets, create_steps, create_step,
}
use kassandra.Markets.Flows.CreateAll.Steps.{CreatesFrom, create_all_CreatesFrom}
use kassandra.Markets.Flows.AddLiquidity.{
  AddLiquidityFlowParams, AddLiquidityFlowResult, add_liquidity_instructions, quote_amount,
  expected_lp, min_lp_tokens,
}
use kassandra.Markets.Flows.AddLiquidity.Bounds.{add_liquidity_bounds}
use kassandra.Markets.Flows.AddLiquidity.Ensured.{add_liquidity_ensured}
use kassandra.Tests.Markets.{ids, refs, at_byte, from_ok}

abbrev buy_params : BuyParams sample.Address sample.Text
buy_params = record {
  refs = refs;
  user = at_byte 50;
  outcome = "no";
  kass_amount = 700;
  user_kass_ata = at_byte 51;
  user_yes_ata = some (at_byte 54);
  user_no_ata = none;
  output_amount_min = some 650;
}

abbrev bought : Traded sample.Address
bought =
    from_ok (record { instructions = []; user_yes_ata = byte_key 0; user_no_ata = byte_key 0 })
      (buy_instructions sample ids buy_params)

buy_legs_example :
    (length bought.instructions ≡ 2)
    × (call_at bought.instructions 0 ≡ some (byte_key 22, byte_key 50 ∷ []))
    × (call_at bought.instructions 1 ≡ some (byte_key 23, byte_key 50 ∷ []))
    × (account_at bought.instructions 0 10 ≡ account_at bought.instructions 1 2)
    × (account_at bought.instructions 0 11 ≡ account_at bought.instructions 1 3)
    × (amount_of (payload_at bought.instructions 0) 8 ≡ u64_le 700)
    × (amount_of (payload_at bought.instructions 1) 9 ≡ u64_le 700)
    × (amount_of (payload_at bought.instructions 1) 17 ≡ u64_le 650)
    × (side_of (payload_at bought.instructions 1) ≡ u8 1)
unfolding buy_instructions is_yes user_conditional_atas split_tokens interact_with_vault metas swap
    given_or_ata addr pubkey_bytes derive Metadao.ata Metadao.amm_pda Metadao.amm_lp_mint_pda
    Metadao.vault_event_authority_pda Metadao.amm_event_authority_pda Pda.associated_token_account
buy_legs_example = buy_legs sample ids buy_params bought (byte_key 50) refl refl

abbrev create_all_params : CreateAllParams sample.Address sample.Text
create_all_params = record {
  oracle = at_byte 31;
  options_count = 2;
  creator = at_byte 53;
  kass_mint = at_byte 32;
  creator_kass_ata = at_byte 55;
  seed_amount = 500;
  program_id = none;
}

abbrev created : List (CreateAllStep sample.Address)
created = from_ok [] (create_all_outcome_markets sample ids create_all_params)

create_all_CreatesFrom_example :
    (1 ≤ 2) × (length created ≡ 2) × CreatesFrom sample ids create_all_params 0 created
unfolding create_all_outcome_markets create_steps create_step create_market Pda.market_pda
    Pda.escrow_pda Pda.config_pda Pda.contribution_pda addr pubkey_bytes derive
create_all_CreatesFrom_example = create_all_CreatesFrom sample ids create_all_params created refl

abbrev deposit : AddLiquidityFlowParams sample.Address sample.Text
deposit = record {
  refs = refs;
  depositor = at_byte 50;
  amount = 1000;
  base_reserve = 300;
  quote_reserve = 200;
  lp_supply = 240;
  slippage_bps = some 100;
}

abbrev deposited : AddLiquidityFlowResult sample.Address
deposited =
    from_ok
      (record {
        instructions = [];
        quote_amount = 0;
        max_base_amount = 0;
        min_lp_tokens = 0;
        expected_lp = 0;
      })
      (add_liquidity_instructions sample ids deposit)

add_liquidity_bounds_example :
    (deposited.quote_amount ≤ 1000)
    × (997 ≤ deposited.max_base_amount)
    × (deposited.max_base_amount ≤ 1000)
    × (1 ≤ deposited.min_lp_tokens)
    × (deposited.min_lp_tokens ≤ max 1 deposited.expected_lp)
    × (deposited.expected_lp * 200 ≤ deposited.quote_amount * 240)
unfolding add_liquidity_instructions quote_amount expected_lp min_lp_tokens add_liquidity
    ensure_conditional_atas_instructions payer_or kass_ata create_idempotent_ata
    create_ata_idempotent_instruction Metadao.ata Metadao.amm_pda Metadao.vault_event_authority_pda
    Metadao.amm_event_authority_pda Pda.associated_token_account Pda.market_pda Pda.escrow_pda
    Pda.config_pda Pda.contribution_pda Pda.cyes_pda Pda.cno_pda Pda.lp_vault_pda addr pubkey_bytes
    derive
add_liquidity_bounds_example =
    add_liquidity_bounds sample ids deposit deposited 997 refl (omega arith) (omega arith)
      (omega arith) (omega arith)

add_liquidity_ensured_example :
    (programs deposited.instructions ≡ byte_key 4 ∷ byte_key 4 ∷ byte_key 4 ∷ byte_key 20 ∷ [])
    × (signers deposited.instructions
        ≡ (byte_key 50 ∷ []) ∷ (byte_key 50 ∷ []) ∷ (byte_key 50 ∷ []) ∷ (byte_key 50 ∷ []) ∷ [])
    × (account_at deposited.instructions 3 12 ≡ account_at deposited.instructions 0 1)
    × (account_at deposited.instructions 3 13 ≡ account_at deposited.instructions 1 1)
    × (account_at deposited.instructions 3 3 ≡ account_at deposited.instructions 2 1)
unfolding add_liquidity_instructions quote_amount expected_lp min_lp_tokens add_liquidity
    ensure_conditional_atas_instructions payer_or kass_ata create_idempotent_ata
    create_ata_idempotent_instruction Metadao.ata Metadao.amm_pda Metadao.vault_event_authority_pda
    Metadao.amm_event_authority_pda Pda.associated_token_account Pda.market_pda Pda.escrow_pda
    Pda.config_pda Pda.contribution_pda Pda.cyes_pda Pda.cno_pda Pda.lp_vault_pda addr pubkey_bytes
    derive
add_liquidity_ensured_example =
    add_liquidity_ensured sample ids deposit deposited (byte_key 50) refl refl
