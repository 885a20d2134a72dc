-- ===== src/Markets/Flows/Exit.antt =====
-- sdks/markets/ts/src/flows/redeem.ts, collectFee.ts and closeMarket.ts.
use kassandra.Base.{[], ◌∷◌, Option, none, some, Result, ok, ◌>>=◌}
use kassandra.Platform.{Platform}
use kassandra.Instructions.Payload.{Instruction, AddressInput, address, Input}
use kassandra.Markets.Payload.{MarketIds}
use kassandra.Markets.Metadao.Vault.{redeem_tokens}
use kassandra.Markets.Liquidity.{collect_fee}
use kassandra.Markets.Lifecycle.{close_market}
use kassandra.Markets.Flows.Compose.{MarketRefs}
use kassandra.Markets.Flows.Trade.{Traded, user_conditional_atas, vault_args}

pub record RedeemParams (Address Text : Type 0) : Type 0 where
  pub refs : MarketRefs Address
  pub user : AddressInput Address Text
  pub user_kass_ata : AddressInput Address Text
  pub user_yes_ata : Option (AddressInput Address Text)
  pub user_no_ata : Option (AddressInput Address Text)

module _ (p : Platform) (ids : MarketIds p) where
  unfoldable pub redeem_instructions : RedeemParams p.Address p.Text → Result (Traded p.Address)
  redeem_instructions params = do
    (yes_ata, no_ata) ←
        user_conditional_atas p ids params.refs params.user params.user_yes_ata params.user_no_ata
    redeem ←
        redeem_tokens p ids
          (vault_args p ids params.refs params.user params.user_kass_ata yes_ata no_ata)
    ok (record { instructions = redeem ∷ []; user_yes_ata = yes_ata; user_no_ata = no_ata })

  unfoldable pub collect_fee_instruction :
      MarketRefs p.Address → Input p → Result (Instruction p.Address)
  collect_fee_instruction refs fee_destination = collect_fee p ids (record {
    market = address refs.market;
    fee_destination = fee_destination;
    question = address refs.question;
    vault = address refs.vault;
    vault_underlying_ata = address refs.vault_underlying_ata;
    yes_mint = address refs.yes_mint;
    no_mint = address refs.no_mint;
    market_cyes = address refs.market_cyes;
    market_cno = address refs.market_cno;
    amm = address refs.amm;
    lp_mint = address refs.lp_mint;
    lp_vault = address refs.lp_vault;
    amm_vault_base = address refs.amm_vault_base;
    amm_vault_quote = address refs.amm_vault_quote;
    cv_event_authority = address refs.cv_event_authority;
    amm_event_authority = address refs.amm_event_authority;
    cv_program = some (address ids.conditional_vault_id);
    amm_program = some (address ids.amm_v04_id);
    token_program = none;
    program_id = none;
  })

  unfoldable pub close_market_instruction : Input p → Input p → Result (Instruction p.Address)
  close_market_instruction market creator =
      close_market p ids (record { market = market; creator = creator; program_id = none })
