-- ===== src/Markets/Flows/AddLiquidity.antt =====
-- sdks/markets/ts/src/flows/addLiquidity.ts.
pub mod Bounds
pub mod Ensured
use kassandra.Base.{
  ℕ, ◌*◌, ◌-◌, ◌/◌, List, [], ◌∷◌, ◌++◌, true, Option, none, some, Result, ok, ltb, ◌==◌,
  if◌then◌else◌, ◌>>=◌,
}
use kassandra.Platform.{Platform}
use kassandra.Instructions.Payload.{Instruction, AddressInput, address}
use kassandra.Markets.Payload.{MarketIds}
use kassandra.Markets.Liquidity.{add_liquidity}
use kassandra.Markets.Flows.Compose.{MarketRefs}
use kassandra.Markets.Flows.Atas.{ensure_conditional_atas_instructions}

pub record AddLiquidityFlowParams (Address Text : Type 0) : Type 0 where
  pub refs : MarketRefs Address
  pub depositor : AddressInput Address Text
  pub amount : ℕ
  pub base_reserve : ℕ
  pub quote_reserve : ℕ
  pub lp_supply : ℕ
  pub slippage_bps : Option ℕ

pub record AddLiquidityFlowResult (Address : Type 0) : Type 0 where
  pub instructions : List (Instruction Address)
  pub quote_amount : ℕ
  pub max_base_amount : ℕ
  pub min_lp_tokens : ℕ
  pub expected_lp : ℕ

abbrev pub min_amount : ℕ → ℕ → ℕ
min_amount a b = if ltb a b then a else b

-- `- 2n`, then `if (quoteAmount < 0n) quoteAmount = 0n`: the subtraction on ℕ.
unfoldable pub quote_amount : ℕ → ℕ → ℕ → ℕ
quote_amount amount base_reserve quote_reserve =
    if base_reserve == 0
    then amount
    else min_amount amount ((amount * quote_reserve) / base_reserve) - 2

unfoldable pub expected_lp : ℕ → ℕ → ℕ → ℕ
expected_lp quote_amount quote_reserve lp_supply =
    if ltb 0 quote_reserve then (quote_amount * lp_supply) / quote_reserve else 0

-- A slippage above 10000 makes the floor negative there and 0 here; the result is 1 either way.
unfoldable pub min_lp_tokens : ℕ → ℕ → ℕ
min_lp_tokens expected slippage_bps =
    let floor = (expected * (10000 - slippage_bps)) / 10000 in if ltb 0 floor then floor else 1

-- `params.slippageBps ?? 100`.
abbrev pub slippage_or_default : Option ℕ → ℕ
slippage_or_default none = 100
slippage_or_default (some bps) = bps

module _ (p : Platform) (ids : MarketIds p) where
  unfoldable pub add_liquidity_instructions :
      AddLiquidityFlowParams p.Address p.Text → Result (AddLiquidityFlowResult p.Address)
  add_liquidity_instructions params = do
    let quote = quote_amount params.amount params.base_reserve params.quote_reserve
    let expected = expected_lp quote params.quote_reserve params.lp_supply
    let floor = min_lp_tokens expected (slippage_or_default params.slippage_bps)
    atas ←
        ensure_conditional_atas_instructions p ids (record {
          refs = params.refs;
          user = params.depositor;
          payer = none;
          include_kass = true;
        })
    ix ← add_liquidity p ids (record {
      market = address params.refs.market;
      oracle = address params.refs.oracle;
      depositor = params.depositor;
      kass_mint = address params.refs.kass_mint;
      question = address params.refs.question;
      vault = address params.refs.vault;
      vault_underlying_ata = address params.refs.vault_underlying_ata;
      yes_mint = address params.refs.yes_mint;
      no_mint = address params.refs.no_mint;
      amm = address params.refs.amm;
      lp_mint = address params.refs.lp_mint;
      amm_vault_base = address params.refs.amm_vault_base;
      amm_vault_quote = address params.refs.amm_vault_quote;
      cv_event_authority = address params.refs.cv_event_authority;
      amm_event_authority = address params.refs.amm_event_authority;
      amount = params.amount;
      quote_amount = quote;
      max_base_amount = params.amount;
      min_lp_tokens = floor;
      cv_program = some (address ids.conditional_vault_id);
      amm_program = some (address ids.amm_v04_id);
      token_program = none;
      system_program = none;
      program_id = none;
    })
    ok (record {
      instructions = atas.instructions ++ ix ∷ [];
      quote_amount = quote;
      max_base_amount = params.amount;
      min_lp_tokens = floor;
      expected_lp = expected;
    })
