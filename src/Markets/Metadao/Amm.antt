-- ===== src/Markets/Metadao/Amm.antt =====
-- sdks/markets/ts/src/metadao/amm.ts.
use kassandra.Base.{ℕ, List, [], ◌∷◌, true, false, Option, none, some, Result, ok, ◌>>=◌}
use kassandra.Platform.{Platform}
use kassandra.Bytes.{u8, u64_le, u128_le, concat_bytes}
use kassandra.Instructions.Payload.{Instruction, AddressInput, address, Input, addr, w, ro}
use kassandra.Markets.Payload.{MarketIds}
use kassandra.Markets.Metadao.Pda.{amm_pda, amm_lp_mint_pda, amm_event_authority_pda, ata}

pub data SwapType : Type 0 where
  buy sell : SwapType

abbrev pub swap_number : SwapType → ℕ
swap_number buy = 0
swap_number sell = 1

abbrev disc_create_amm : List ℕ
disc_create_amm = 0xf2 ∷ 0x5b ∷ 0x15 ∷ 0xaa ∷ 0x05 ∷ 0x44 ∷ 0x7d ∷ 0x40 ∷ []

abbrev disc_add_liquidity : List ℕ
disc_add_liquidity = 0xb5 ∷ 0x9d ∷ 0x59 ∷ 0x43 ∷ 0x8f ∷ 0xb6 ∷ 0x34 ∷ 0x48 ∷ []

abbrev pub disc_swap : List ℕ
disc_swap = 0xf8 ∷ 0xc6 ∷ 0x9e ∷ 0x91 ∷ 0xe1 ∷ 0x75 ∷ 0x87 ∷ 0xc8 ∷ []

abbrev disc_crank_that_twap : List ℕ
disc_crank_that_twap = 0xdc ∷ 0x64 ∷ 0x19 ∷ 0xf9 ∷ 0x00 ∷ 0x5c ∷ 0xc3 ∷ 0xc1 ∷ []

-- `amount ?? 0`.
abbrev pub or_zero : Option ℕ → ℕ
or_zero none = 0
or_zero (some n) = n

pub record CreateAmmArgs (Address Text : Type 0) : Type 0 where
  pub payer : AddressInput Address Text
  pub base_mint : AddressInput Address Text
  pub quote_mint : AddressInput Address Text
  pub twap_initial_observation : ℕ
  pub twap_max_observation_change_per_update : ℕ
  pub twap_start_delay_slots : Option ℕ

pub record AddLiquidityArgs (Address Text : Type 0) : Type 0 where
  pub payer : AddressInput Address Text
  pub base_mint : AddressInput Address Text
  pub quote_mint : AddressInput Address Text
  pub quote_amount : ℕ
  pub max_base_amount : ℕ
  pub min_lp_tokens : Option ℕ

pub record SwapArgs (Address Text : Type 0) : Type 0 where
  pub payer : AddressInput Address Text
  pub base_mint : AddressInput Address Text
  pub quote_mint : AddressInput Address Text
  pub swap_type : SwapType
  pub input_amount : ℕ
  pub output_amount_min : Option ℕ
  pub user_base : Option (AddressInput Address Text)
  pub user_quote : Option (AddressInput Address Text)

pub record CrankThatTwapArgs (Address Text : Type 0) : Type 0 where
  pub amm : AddressInput Address Text

module _ (p : Platform) (ids : MarketIds p) where
  -- `a.userBase ? addr(a.userBase) : await pda.ata(a.payer, a.baseMint)`.
  unfoldable pub given_or_ata : Option (Input p) → Input p → Input p → Result p.Address
  given_or_ata none owner mint = ata p ids owner mint
  given_or_ata (some a) owner mint = addr p a

  unfoldable pub create_amm : CreateAmmArgs p.Address p.Text → Result (Instruction p.Address)
  create_amm args = do
    amm_pda ← amm_pda p ids args.base_mint args.quote_mint
    let amm = amm_pda.address
    lp_mint ← amm_lp_mint_pda p ids (address amm)
    vault_base ← ata p ids (address amm) args.base_mint
    vault_quote ← ata p ids (address amm) args.quote_mint
    event_authority ← amm_event_authority_pda p ids
    payer ← addr p args.payer
    base_mint ← addr p args.base_mint
    quote_mint ← addr p args.quote_mint
    ok (record {
      program_id = ids.amm_v04_id;
      keys =
          w p payer true
          ∷ w p amm false
          ∷ w p lp_mint.address false
          ∷ ro p base_mint false
          ∷ ro p quote_mint false
          ∷ w p vault_base false
          ∷ w p vault_quote false
          ∷ ro p ids.ata_program_id false
          ∷ ro p ids.token_program_id false
          ∷ ro p ids.system_program_id false
          ∷ ro p event_authority.address false
          ∷ ro p ids.amm_v04_id false
          ∷ [];
      payload = concat_bytes (
          disc_create_amm
          ∷ u128_le args.twap_initial_observation
          ∷ u128_le args.twap_max_observation_change_per_update
          ∷ u64_le (or_zero args.twap_start_delay_slots)
          ∷ []);
    })

  unfoldable pub add_liquidity : AddLiquidityArgs p.Address p.Text → Result (Instruction p.Address)
  add_liquidity args = do
    amm_pda ← amm_pda p ids args.base_mint args.quote_mint
    let amm = amm_pda.address
    lp_mint ← amm_lp_mint_pda p ids (address amm)
    user_lp ← ata p ids args.payer (address lp_mint.address)
    user_base ← ata p ids args.payer args.base_mint
    user_quote ← ata p ids args.payer args.quote_mint
    vault_base ← ata p ids (address amm) args.base_mint
    vault_quote ← ata p ids (address amm) args.quote_mint
    event_authority ← amm_event_authority_pda p ids
    payer ← addr p args.payer
    ok (record {
      program_id = ids.amm_v04_id;
      keys =
          w p payer true
          ∷ w p amm false
          ∷ w p lp_mint.address false
          ∷ w p user_lp false
          ∷ w p user_base false
          ∷ w p user_quote false
          ∷ w p vault_base false
          ∷ w p vault_quote false
          ∷ ro p ids.token_program_id false
          ∷ ro p event_authority.address false
          ∷ ro p ids.amm_v04_id false
          ∷ [];
      payload = concat_bytes (
          disc_add_liquidity
          ∷ u64_le args.quote_amount
          ∷ u64_le args.max_base_amount
          ∷ u64_le (or_zero args.min_lp_tokens)
          ∷ []);
    })

  unfoldable pub swap : SwapArgs p.Address p.Text → Result (Instruction p.Address)
  swap args = do
    amm_pda ← amm_pda p ids args.base_mint args.quote_mint
    let amm = amm_pda.address
    user_base ← given_or_ata args.user_base args.payer args.base_mint
    user_quote ← given_or_ata args.user_quote args.payer args.quote_mint
    vault_base ← ata p ids (address amm) args.base_mint
    vault_quote ← ata p ids (address amm) args.quote_mint
    event_authority ← amm_event_authority_pda p ids
    payer ← addr p args.payer
    ok (record {
      program_id = ids.amm_v04_id;
      keys =
          w p payer true
          ∷ w p amm false
          ∷ w p user_base false
          ∷ w p user_quote false
          ∷ w p vault_base false
          ∷ w p vault_quote false
          ∷ ro p ids.token_program_id false
          ∷ ro p event_authority.address false
          ∷ ro p ids.amm_v04_id false
          ∷ [];
      payload = concat_bytes (
          disc_swap
          ∷ u8 (swap_number args.swap_type)
          ∷ u64_le args.input_amount
          ∷ u64_le (or_zero args.output_amount_min)
          ∷ []);
    })

  unfoldable pub crank_that_twap :
      CrankThatTwapArgs p.Address p.Text → Result (Instruction p.Address)
  crank_that_twap args = do
    event_authority ← amm_event_authority_pda p ids
    amm ← addr p args.amm
    ok (record {
      program_id = ids.amm_v04_id;
      keys = w p amm false ∷ ro p event_authority.address false ∷ ro p ids.amm_v04_id false ∷ [];
      payload = disc_crank_that_twap;
    })
