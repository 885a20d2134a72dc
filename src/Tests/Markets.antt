-- ===== src/Tests/Markets.antt =====
-- The market SDK at one call each.
use kassandra.Base.{
  ℕ, ◌≡◌, refl, arith, [], ◌∷◌, none, some, ok, err, Result, get_elem?, length, concat, true, false,
}
use kassandra.Tests.Sample.{sample, byte_key}
use kassandra.Instructions.Payload.{AddressInput, address, Instruction, addr, pubkey_bytes}
use kassandra.Instructions.Pda.{derive}
use kassandra.Instructions.Calls.{signing, SignedBy}
use kassandra.Markets.Payload.{MarketIds}
use kassandra.Markets.Keys.{account_at, call_at}
use kassandra.Markets.Pda
use kassandra.Markets.Metadao.Pda as Metadao
use kassandra.Markets.Metadao.Vault.{
  initialize_question, initialize_conditional_vault, cond_mints_from,
}
use kassandra.Markets.Metadao.Amm.{create_amm}
use kassandra.Markets.Accounts.Common.{AccountType}
use kassandra.Markets.Accounts.Header.{header}
use kassandra.Markets.Accounts.Market.{Market}
use kassandra.Markets.Accounts.Contribution.{Contribution, decode_contribution}
use kassandra.Markets.Accounts.Contribution.Layout.{contribution_fields}
use kassandra.Markets.Accounts.Layouts.{Kind, decode_market_account-layout}
use kassandra.Markets.Funding.{ContributeArgs, contribute}
use kassandra.Markets.Promises.{MarketCall, build_market_lem}
use kassandra.Markets.Flows.Compose.{
  MarketRefs, ComposeParams, Composed, compose_market_instructions, compose_refs,
  market_refs_from_account,
}
use kassandra.Markets.Flows.Compose.Refs.{Records, market_refs_from_account-compose}
use kassandra.Markets.Flows.Compose.Accounts.{compose_accounts}

abbrev pub ids : MarketIds sample
ids = record {
  market_program_id = byte_key 20;
  system_program_id = byte_key 2;
  token_program_id = byte_key 3;
  ata_program_id = byte_key 4;
  bpf_upgradeable_loader_id = byte_key 21;
  conditional_vault_id = byte_key 22;
  amm_v04_id = byte_key 23;
}

abbrev pub at_byte : ℕ → AddressInput sample.Address sample.Text
at_byte b = address (byte_key b)

abbrev pub from_ok : {A : Type 0} → A → Result A → A
from_ok d (ok a) = a
from_ok d (err e) = d

abbrev no_instruction : Instruction sample.Address
no_instruction = record { program_id = byte_key 0; keys = []; payload = [] }

abbrev pub refs : MarketRefs sample.Address
refs = record {
  market = byte_key 30;
  oracle = byte_key 31;
  kass_mint = byte_key 32;
  question = byte_key 33;
  vault = byte_key 34;
  vault_underlying_ata = byte_key 35;
  yes_mint = byte_key 36;
  no_mint = byte_key 37;
  amm = byte_key 38;
  lp_mint = byte_key 39;
  amm_vault_base = byte_key 40;
  amm_vault_quote = byte_key 41;
  cv_event_authority = byte_key 42;
  amm_event_authority = byte_key 43;
  market_cyes = byte_key 44;
  market_cno = byte_key 45;
  lp_vault = byte_key 46;
  escrow = byte_key 47;
}

abbrev contribute_args : ContributeArgs sample.Address sample.Text
contribute_args = record {
  contributor = at_byte 50;
  market = at_byte 30;
  contributor_kass_ata = at_byte 51;
  amount = 900;
  program_id = none;
}

abbrev contributed : Instruction sample.Address
contributed = from_ok no_instruction (contribute sample ids contribute_args)

build_market_lem_example :
    (contributed.program_id ≡ ids.market_program_id)
    × (get_elem? contributed.payload 0 ≡ some 3)
    × SignedBy sample (some (at_byte 50)) (signing contributed.keys)
unfolding contribute Pda.escrow_pda Pda.contribution_pda Pda.config_pda addr pubkey_bytes derive
build_market_lem_example =
    build_market_lem sample ids (MarketCall.contribute contribute_args) contributed refl

abbrev compose_params : ComposeParams sample.Address sample.Text
compose_params = record {
  market = at_byte 30;
  oracle = at_byte 31;
  kass_mint = at_byte 32;
  payer = at_byte 52;
}

abbrev composed : Composed sample.Address
composed =
    from_ok (record { instructions = []; refs = refs })
      (compose_market_instructions sample ids compose_params)

compose_accounts_example :
    (length composed.instructions ≡ 3)
    × (call_at composed.instructions 0 ≡ some (byte_key 22, byte_key 52 ∷ []))
    × (account_at composed.instructions 0 0 ≡ some composed.refs.question)
    × (call_at composed.instructions 1 ≡ some (byte_key 22, byte_key 52 ∷ []))
    × (account_at composed.instructions 1 0 ≡ some composed.refs.vault)
    × (account_at composed.instructions 1 1 ≡ some composed.refs.question)
    × (account_at composed.instructions 1 3 ≡ some composed.refs.vault_underlying_ata)
    × (account_at composed.instructions 1 10 ≡ some composed.refs.yes_mint)
    × (account_at composed.instructions 1 11 ≡ some composed.refs.no_mint)
    × (call_at composed.instructions 2 ≡ some (byte_key 23, byte_key 52 ∷ []))
    × (account_at composed.instructions 2 1 ≡ some composed.refs.amm)
    × (account_at composed.instructions 2 2 ≡ some composed.refs.lp_mint)
    × (account_at composed.instructions 2 3 ≡ some composed.refs.yes_mint)
    × (account_at composed.instructions 2 4 ≡ some composed.refs.no_mint)
    × (account_at composed.instructions 2 5 ≡ some composed.refs.amm_vault_base)
    × (account_at composed.instructions 2 6 ≡ some composed.refs.amm_vault_quote)
unfolding compose_market_instructions compose_refs addr pubkey_bytes derive Metadao.question_pda
    Metadao.conditional_vault_pda Metadao.ata Metadao.conditional_token_mint_pda Metadao.amm_pda
    Metadao.amm_lp_mint_pda Metadao.vault_event_authority_pda Metadao.amm_event_authority_pda
    Pda.associated_token_account Pda.cyes_pda Pda.cno_pda Pda.lp_vault_pda Pda.escrow_pda
    initialize_question initialize_conditional_vault cond_mints_from create_amm
compose_accounts_example =
    compose_accounts sample ids compose_params composed (byte_key 52) refl refl

abbrev account : Market sample.Address
account = record {
  account_type = AccountType.market;
  oracle = composed.refs.oracle;
  creator = byte_key 53;
  kass_mint = composed.refs.kass_mint;
  escrow_vault = composed.refs.escrow;
  min_liquidity = 1000;
  total_contributed = 2000;
  open_contributions = 2;
  status = 1;
  bump = 254;
  escrow_bump = 253;
  question = composed.refs.question;
  vault = composed.refs.vault;
  yes_mint = composed.refs.yes_mint;
  no_mint = composed.refs.no_mint;
  amm = composed.refs.amm;
  lp_mint = composed.refs.lp_mint;
  lp_vault = composed.refs.lp_vault;
  lp_total = 2000;
  settled = false;
  fee_bps = 50;
  fee_collected = false;
  outcome_index = 1;
  activation_lp = 2000;
  activation_contributed = 2000;
  gross_lp_total = 2000;
}

abbrev account-Records : Records account composed.refs
account-Records = record {
  oracle = refl;
  kass_mint = refl;
  question = refl;
  vault = refl;
  yes_mint = refl;
  no_mint = refl;
  amm = refl;
  lp_mint = refl;
  lp_vault = refl;
  escrow = refl;
}

market_refs_from_account-compose_example :
    market_refs_from_account sample ids (at_byte 30) account ≡ ok composed.refs
unfolding compose_market_instructions compose_refs addr pubkey_bytes derive Metadao.question_pda
    Metadao.conditional_vault_pda Metadao.ata Metadao.conditional_token_mint_pda Metadao.amm_pda
    Metadao.amm_lp_mint_pda Metadao.vault_event_authority_pda Metadao.amm_event_authority_pda
    Pda.associated_token_account Pda.cyes_pda Pda.cno_pda Pda.lp_vault_pda Pda.escrow_pda
    initialize_question initialize_conditional_vault cond_mints_from create_amm
market_refs_from_account-compose_example =
    market_refs_from_account-compose sample ids compose_params composed account refl account-Records

abbrev contribution_at : Contribution sample.Address
contribution_at = record {
  account_type = AccountType.contribution;
  market = byte_key 30;
  contributor = byte_key 50;
  amount = 900;
  claimed = true;
  bump = 252;
  late_lp = 7;
}

decode_market_account-layout_example :
    decode_contribution sample
      (concat (header AccountType.contribution ∷ contribution_fields sample contribution_at))
    ≡ ok contribution_at
decode_market_account-layout_example =
    decode_market_account-layout sample Kind.contribution contribution_at
      (concat (header AccountType.contribution ∷ contribution_fields sample contribution_at)) refl
      (record { tagged = refl; amount = omega arith; bump = omega arith; late_lp = omega arith })
