-- ===== src/Markets/Flows/Compose.antt =====
-- sdks/markets/ts/src/flows/compose.ts. Where several calls are awaited together, the one that stands
-- first throws first.
pub mod Refs
pub mod Accounts
use kassandra.Base.{ℕ, ◌*◌, ◌-◌, ◌^◌, List, [], ◌∷◌, none, some, Result, ok, ◌>>=◌}
use kassandra.Platform.{Platform}
use kassandra.Instructions.Payload.{Instruction, AddressInput, address, addr}
use kassandra.Markets.Payload.{MarketIds}
use kassandra.Markets.Pda.{escrow_pda, cyes_pda, cno_pda, lp_vault_pda}
use kassandra.Markets.Metadao.Pda.{
  question_pda, conditional_vault_pda, conditional_token_mint_pda, vault_event_authority_pda,
  amm_pda, amm_lp_mint_pda, amm_event_authority_pda, ata,
}
use kassandra.Markets.Metadao.Vault.{initialize_question, initialize_conditional_vault}
use kassandra.Markets.Metadao.Amm.{create_amm}
use kassandra.Markets.Accounts.Market.{Market}
use kassandra.Markets.Lifecycle.{activate}

abbrev pub twap_initial_observation : ℕ
twap_initial_observation = 1000000000000

abbrev pub twap_max_observation_change_per_update : ℕ
twap_max_observation_change_per_update = (2 ^ 64 - 1) * 1000000000000

abbrev pub twap_start_delay_slots : ℕ
twap_start_delay_slots = 0

pub record MarketRefs (Address : Type 0) : Type 0 where
  pub market : Address
  pub oracle : Address
  pub kass_mint : Address
  pub question : Address
  pub vault : Address
  pub vault_underlying_ata : Address
  pub yes_mint : Address
  pub no_mint : Address
  pub amm : Address
  pub lp_mint : Address
  pub amm_vault_base : Address
  pub amm_vault_quote : Address
  pub cv_event_authority : Address
  pub amm_event_authority : Address
  pub market_cyes : Address
  pub market_cno : Address
  pub lp_vault : Address
  pub escrow : Address

pub record ComposeParams (Address Text : Type 0) : Type 0 where
  pub market : AddressInput Address Text
  pub oracle : AddressInput Address Text
  pub kass_mint : AddressInput Address Text
  pub payer : AddressInput Address Text

pub record Composed (Address : Type 0) : Type 0 where
  pub instructions : List (Instruction Address)
  pub refs : MarketRefs Address

module _ (p : Platform) (ids : MarketIds p) where
  unfoldable pub market_refs_from_account :
      AddressInput p.Address p.Text → Market p.Address → Result (MarketRefs p.Address)
  market_refs_from_account market_input decoded = do
    market ← addr p market_input
    vault_underlying_ata ← ata p ids (address decoded.vault) (address decoded.kass_mint)
    amm_vault_base ← ata p ids (address decoded.amm) (address decoded.yes_mint)
    amm_vault_quote ← ata p ids (address decoded.amm) (address decoded.no_mint)
    cv_event_authority ← vault_event_authority_pda p ids
    amm_event_authority ← amm_event_authority_pda p ids
    market_cyes ← cyes_pda p (address market) ids.market_program_id
    market_cno ← cno_pda p (address market) ids.market_program_id
    ok (record {
      market = market;
      oracle = decoded.oracle;
      kass_mint = decoded.kass_mint;
      question = decoded.question;
      vault = decoded.vault;
      vault_underlying_ata = vault_underlying_ata;
      yes_mint = decoded.yes_mint;
      no_mint = decoded.no_mint;
      amm = decoded.amm;
      lp_mint = decoded.lp_mint;
      amm_vault_base = amm_vault_base;
      amm_vault_quote = amm_vault_quote;
      cv_event_authority = cv_event_authority.address;
      amm_event_authority = amm_event_authority.address;
      market_cyes = market_cyes.address;
      market_cno = market_cno.address;
      lp_vault = decoded.lp_vault;
      escrow = decoded.escrow_vault;
    })

  -- The derived addresses of `composeMarketInstructions`.
  unfoldable pub compose_refs : p.Address → p.Address → p.Address → Result (MarketRefs p.Address)
  compose_refs market oracle kass_mint = do
    question ← question_pda p ids (p.to_bytes oracle) (address market) 2
    vault ← conditional_vault_pda p ids (address question.address) (address kass_mint)
    vault_underlying_ata ← ata p ids (address vault.address) (address kass_mint)
    yes_mint ← conditional_token_mint_pda p ids (address vault.address) 0
    no_mint ← conditional_token_mint_pda p ids (address vault.address) 1
    amm ← amm_pda p ids (address yes_mint.address) (address no_mint.address)
    lp_mint ← amm_lp_mint_pda p ids (address amm.address)
    amm_vault_base ← ata p ids (address amm.address) (address yes_mint.address)
    amm_vault_quote ← ata p ids (address amm.address) (address no_mint.address)
    cv_event_authority ← vault_event_authority_pda p ids
    amm_event_authority ← amm_event_authority_pda p ids
    market_cyes ← cyes_pda p (address market) ids.market_program_id
    market_cno ← cno_pda p (address market) ids.market_program_id
    lp_vault ← lp_vault_pda p (address market) ids.market_program_id
    escrow ← escrow_pda p (address market) ids.market_program_id
    ok (record {
      market = market;
      oracle = oracle;
      kass_mint = kass_mint;
      question = question.address;
      vault = vault.address;
      vault_underlying_ata = vault_underlying_ata;
      yes_mint = yes_mint.address;
      no_mint = no_mint.address;
      amm = amm.address;
      lp_mint = lp_mint.address;
      amm_vault_base = amm_vault_base;
      amm_vault_quote = amm_vault_quote;
      cv_event_authority = cv_event_authority.address;
      amm_event_authority = amm_event_authority.address;
      market_cyes = market_cyes.address;
      market_cno = market_cno.address;
      lp_vault = lp_vault.address;
      escrow = escrow.address;
    })

  unfoldable pub compose_market_instructions :
      ComposeParams p.Address p.Text → Result (Composed p.Address)
  compose_market_instructions params = do
    market ← addr p params.market
    oracle ← addr p params.oracle
    kass_mint ← addr p params.kass_mint
    payer ← addr p params.payer
    refs ← compose_refs market oracle kass_mint
    ix_question ← initialize_question p ids (record {
      payer = address payer;
      question_id = p.to_bytes oracle;
      oracle = address market;
      num_outcomes = 2;
    })
    ix_vault ← initialize_conditional_vault p ids (record {
      payer = address payer;
      question = address refs.question;
      underlying_mint = address kass_mint;
      num_outcomes = some 2;
    })
    ix_amm ← create_amm p ids (record {
      payer = address payer;
      base_mint = address refs.yes_mint;
      quote_mint = address refs.no_mint;
      twap_initial_observation = twap_initial_observation;
      twap_max_observation_change_per_update = twap_max_observation_change_per_update;
      twap_start_delay_slots = some twap_start_delay_slots;
    })
    ok (record { instructions = ix_question ∷ ix_vault ∷ ix_amm ∷ []; refs = refs })

  unfoldable pub activate_instruction :
      MarketRefs p.Address → AddressInput p.Address p.Text → Result (Instruction p.Address)
  activate_instruction refs payer = activate p ids (record {
    market = address refs.market;
    oracle = address refs.oracle;
    payer = payer;
    question = address refs.question;
    vault = address refs.vault;
    vault_underlying_ata = address refs.vault_underlying_ata;
    yes_mint = address refs.yes_mint;
    no_mint = address refs.no_mint;
    market_cyes = address refs.market_cyes;
    market_cno = address refs.market_cno;
    amm = address refs.amm;
    lp_mint = address refs.lp_mint;
    lp_vault = address refs.lp_vault;
    amm_vault_base = address refs.amm_vault_base;
    amm_vault_quote = address refs.amm_vault_quote;
    cv_event_authority = address refs.cv_event_authority;
    amm_event_authority = address refs.amm_event_authority;
    cv_program = some (address ids.conditional_vault_id);
    amm_program = some (address ids.amm_v04_id);
    token_program = none;
    system_program = none;
    program_id = none;
  })
