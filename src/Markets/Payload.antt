-- ===== src/Markets/Payload.antt =====
-- The discriminants and the program ids of sdks/markets/ts/src/constants.ts, and `withDisc` of
-- instructions/payload.ts. The rest of payload.ts and all of bytes.ts and `AddressInput` are word for
-- word those of the oracle SDK, and taken from there.
use kassandra.Base.{ℕ, List, ◌∷◌, Option, none, some}
use kassandra.Platform.{Platform}
use kassandra.Bytes.{u8, concat_bytes}
use kassandra.Instructions.Payload.{address, Input}

pub data Ix : Type 0 where
  init_config update_config create_market contribute cancel refund activate claim_lp : Ix
  resolve_market collect_fee close_market add_liquidity : Ix

-- The enum's numbers.
abbrev pub disc_of : Ix → ℕ
disc_of init_config = 0
disc_of update_config = 1
disc_of create_market = 2
disc_of contribute = 3
disc_of cancel = 4
disc_of refund = 5
disc_of activate = 6
disc_of claim_lp = 7
disc_of resolve_market = 8
disc_of collect_fee = 9
disc_of close_market = 10
disc_of add_liquidity = 11

-- The program ids that constants.ts names, as addresses.
pub record MarketIds (p : Platform) : Type 0 where
  pub market_program_id : p.Address
  pub system_program_id : p.Address
  pub token_program_id : p.Address
  pub ata_program_id : p.Address
  pub bpf_upgradeable_loader_id : p.Address
  pub conditional_vault_id : p.Address
  pub amm_v04_id : p.Address

module _ (p : Platform) where
  -- `args.programId ?? MARKET_PROGRAM_ID`.
  abbrev pub program_or_default : MarketIds p → Option p.Address → p.Address
  program_or_default ids none = ids.market_program_id
  program_or_default ids (some a) = a

  -- `args.cvProgram ?? EXTERNAL_PROGRAM_IDS.conditionalVault`, and the like.
  abbrev pub input_or : Option (Input p) → p.Address → Input p
  input_or none fallback = address fallback
  input_or (some a) fallback = a

unfoldable pub with_disc : Ix → List (List ℕ) → List ℕ
unfolding u8 concat_bytes
with_disc disc payload = concat_bytes (u8 (disc_of disc) ∷ payload)
