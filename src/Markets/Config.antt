-- ===== src/Markets/Config.antt =====
-- sdks/markets/ts/src/instructions/market/config.ts.
use kassandra.Base.{ℕ, [], ◌∷◌, true, false, Option, Result, ok, ◌>>=◌}
use kassandra.Platform.{Platform}
use kassandra.Bytes.{u16_le, u64_le}
use kassandra.Instructions.Payload.{Instruction, AddressInput, addr, pubkey_bytes, w, ro}
use kassandra.Markets.Payload.{Ix, MarketIds, program_or_default, with_disc}
use kassandra.Markets.Pda.{config_pda, program_data_pda}

pub record InitConfigArgs (Address Text : Type 0) : Type 0 where
  pub payer : AddressInput Address Text
  pub kass_mint : AddressInput Address Text
  pub authority : AddressInput Address Text
  pub min_liquidity : ℕ
  pub fee_bps : ℕ
  pub fee_destination : AddressInput Address Text
  pub program_id : Option Address

pub record UpdateConfigArgs (Address Text : Type 0) : Type 0 where
  pub authority : AddressInput Address Text
  pub min_liquidity : ℕ
  pub fee_bps : ℕ
  pub fee_destination : AddressInput Address Text
  pub program_id : Option Address

module _ (p : Platform) (ids : MarketIds p) where
  unfoldable pub init_config : InitConfigArgs p.Address p.Text → Result (Instruction p.Address)
  init_config args = do
    let program_id = program_or_default p ids args.program_id
    config ← config_pda p program_id
    program_data ← program_data_pda p ids program_id
    payer ← addr p args.payer
    kass_mint ← addr p args.kass_mint
    fee_destination ← addr p args.fee_destination
    authority ← pubkey_bytes p args.authority
    fee_bytes ← pubkey_bytes p args.fee_destination
    ok (record {
      program_id = program_id;
      keys =
          w p config.address false
          ∷ w p payer true
          ∷ ro p kass_mint false
          ∷ ro p fee_destination false
          ∷ ro p ids.system_program_id false
          ∷ ro p program_data.address false
          ∷ [];
      payload =
          with_disc Ix.init_config
            (authority ∷ u64_le args.min_liquidity ∷ u16_le args.fee_bps ∷ fee_bytes ∷ []);
    })

  unfoldable pub update_config : UpdateConfigArgs p.Address p.Text → Result (Instruction p.Address)
  update_config args = do
    let program_id = program_or_default p ids args.program_id
    config ← config_pda p program_id
    authority ← addr p args.authority
    fee_destination ← addr p args.fee_destination
    fee_bytes ← pubkey_bytes p args.fee_destination
    ok (record {
      program_id = program_id;
      keys = w p config.address false ∷ ro p authority true ∷ ro p fee_destination false ∷ [];
      payload =
          with_disc Ix.update_config
            (u64_le args.min_liquidity ∷ u16_le args.fee_bps ∷ fee_bytes ∷ []);
    })
