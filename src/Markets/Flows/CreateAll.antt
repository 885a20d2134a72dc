-- ===== src/Markets/Flows/CreateAll.antt =====
-- sdks/markets/ts/src/flows/createAll.ts.
pub mod Steps
use kassandra.Base.{
  ℕ, zero, suc, List, [], ◌∷◌, Option, Result, ok, no_options, guard, leb, ◌>>=◌, ◌>>◌,
}
use kassandra.Platform.{Platform}
use kassandra.Instructions.Payload.{Instruction, AddressInput}
use kassandra.Markets.Payload.{MarketIds, program_or_default}
use kassandra.Markets.Pda.{market_pda}
use kassandra.Markets.Funding.{create_market}

pub record CreateAllParams (Address Text : Type 0) : Type 0 where
  pub oracle : AddressInput Address Text
  pub options_count : ℕ
  pub creator : AddressInput Address Text
  pub kass_mint : AddressInput Address Text
  pub creator_kass_ata : AddressInput Address Text
  pub seed_amount : ℕ
  pub program_id : Option Address

pub record CreateAllStep (Address : Type 0) : Type 0 where
  pub outcome_index : ℕ
  pub market : Address
  pub instruction : Instruction Address

module _ (p : Platform) (ids : MarketIds p) (params : CreateAllParams p.Address p.Text) where
  unfoldable pub create_step : ℕ → Result (CreateAllStep p.Address)
  create_step outcome_index = do
    market ← market_pda p params.oracle outcome_index (program_or_default p ids params.program_id)
    instruction ← create_market p ids (record {
      creator = params.creator;
      oracle = params.oracle;
      kass_mint = params.kass_mint;
      creator_kass_ata = params.creator_kass_ata;
      seed_amount = params.seed_amount;
      outcome_index = outcome_index;
      program_id = params.program_id;
    })
    ok (record {
      outcome_index = outcome_index;
      market = market.address;
      instruction = instruction;
    })

  -- `Array.from({ length: optionsCount }, …)`, from outcome `i` on, with `left` to go.
  unfoldable pub create_steps : ℕ → ℕ → Result (List (CreateAllStep p.Address))
  create_steps i zero = ok []
  create_steps i (suc left) = do
    step ← create_step i
    rest ← create_steps (suc i) left
    ok (step ∷ rest)

  unfoldable pub create_all_outcome_markets : Result (List (CreateAllStep p.Address))
  create_all_outcome_markets = do
    guard (leb 1 params.options_count) (no_options params.options_count)
    create_steps 0 params.options_count
