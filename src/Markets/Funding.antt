-- ===== src/Markets/Funding.antt =====
-- sdks/markets/ts/src/instructions/market/funding.ts.
use kassandra.Base.{ℕ, [], ◌∷◌, true, false, Option, Result, ok, ◌>>=◌}
use kassandra.Platform.{Platform}
use kassandra.Bytes.{u8, u64_le}
use kassandra.Instructions.Payload.{Instruction, AddressInput, address, addr, w, ro}
use kassandra.Markets.Payload.{Ix, MarketIds, program_or_default, with_disc}
use kassandra.Markets.Pda.{config_pda, market_pda, escrow_pda, contribution_pda}

pub record CreateMarketArgs (Address Text : Type 0) : Type 0 where
  pub creator : AddressInput Address Text
  pub oracle : AddressInput Address Text
  pub kass_mint : AddressInput Address Text
  pub creator_kass_ata : AddressInput Address Text
  pub seed_amount : ℕ
  pub outcome_index : ℕ
  pub program_id : Option Address

pub record ContributeArgs (Address Text : Type 0) : Type 0 where
  pub contributor : AddressInput Address Text
  pub market : AddressInput Address Text
  pub contributor_kass_ata : AddressInput Address Text
  pub amount : ℕ
  pub program_id : Option Address

pub record CancelArgs (Address Text : Type 0) : Type 0 where
  pub market : AddressInput Address Text
  pub oracle : AddressInput Address Text
  pub program_id : Option Address

pub record RefundArgs (Address Text : Type 0) : Type 0 where
  pub market : AddressInput Address Text
  pub contributor : AddressInput Address Text
  pub contributor_kass_ata : AddressInput Address Text
  pub program_id : Option Address

module _ (p : Platform) (ids : MarketIds p) where
  unfoldable pub create_market : CreateMarketArgs p.Address p.Text → Result (Instruction p.Address)
  create_market args = do
    let program_id = program_or_default p ids args.program_id
    config ← config_pda p program_id
    market ← market_pda p args.oracle args.outcome_index program_id
    escrow ← escrow_pda p (address market.address) program_id
    contribution ← contribution_pda p (address market.address) args.creator program_id
    oracle ← addr p args.oracle
    kass_mint ← addr p args.kass_mint
    creator ← addr p args.creator
    creator_kass_ata ← addr p args.creator_kass_ata
    ok (record {
      program_id = program_id;
      keys =
          ro p config.address false
          ∷ ro p oracle false
          ∷ w p market.address false
          ∷ w p escrow.address false
          ∷ ro p kass_mint false
          ∷ w p creator true
          ∷ w p creator_kass_ata false
          ∷ w p contribution.address false
          ∷ ro p ids.token_program_id false
          ∷ ro p ids.system_program_id false
          ∷ [];
      payload = with_disc Ix.create_market (u64_le args.seed_amount ∷ u8 args.outcome_index ∷ []);
    })

  unfoldable pub contribute : ContributeArgs p.Address p.Text → Result (Instruction p.Address)
  contribute args = do
    let program_id = program_or_default p ids args.program_id
    escrow ← escrow_pda p args.market program_id
    contribution ← contribution_pda p args.market args.contributor program_id
    market ← addr p args.market
    contributor ← addr p args.contributor
    contributor_kass_ata ← addr p args.contributor_kass_ata
    ok (record {
      program_id = program_id;
      keys =
          w p market false
          ∷ w p escrow.address false
          ∷ w p contributor true
          ∷ w p contributor_kass_ata false
          ∷ w p contribution.address false
          ∷ ro p ids.token_program_id false
          ∷ ro p ids.system_program_id false
          ∷ [];
      payload = with_disc Ix.contribute (u64_le args.amount ∷ []);
    })

  unfoldable pub cancel : CancelArgs p.Address p.Text → Result (Instruction p.Address)
  cancel args = do
    let program_id = program_or_default p ids args.program_id
    market ← addr p args.market
    oracle ← addr p args.oracle
    ok (record {
      program_id = program_id;
      keys = w p market false ∷ ro p oracle false ∷ [];
      payload = with_disc Ix.cancel ([]);
    })

  unfoldable pub refund : RefundArgs p.Address p.Text → Result (Instruction p.Address)
  refund args = do
    let program_id = program_or_default p ids args.program_id
    escrow ← escrow_pda p args.market program_id
    contribution ← contribution_pda p args.market args.contributor program_id
    market ← addr p args.market
    contributor_kass_ata ← addr p args.contributor_kass_ata
    contributor ← addr p args.contributor
    ok (record {
      program_id = program_id;
      keys =
          w p market false
          ∷ w p escrow.address false
          ∷ w p contribution.address false
          ∷ w p contributor_kass_ata false
          ∷ w p contributor false
          ∷ ro p ids.token_program_id false
          ∷ [];
      payload = with_disc Ix.refund ([]);
    })
