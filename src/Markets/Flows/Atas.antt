-- ===== src/Markets/Flows/Atas.antt =====
-- sdks/markets/ts/src/flows/atas.ts.
use kassandra.Base.{List, [], ◌∷◌, Bool, true, false, Option, none, some, Result, ok, ◌>>=◌}
use kassandra.Platform.{Platform}
use kassandra.Instructions.Payload.{Instruction, AddressInput, address, Input, addr, w, ro}
use kassandra.Markets.Payload.{MarketIds}
use kassandra.Markets.Pda.{associated_token_account}
use kassandra.Markets.Flows.Compose.{MarketRefs}

-- Absent is false for `includeKass`.
pub record EnsureAtasParams (Address Text : Type 0) : Type 0 where
  pub refs : MarketRefs Address
  pub user : AddressInput Address Text
  pub payer : Option (AddressInput Address Text)
  pub include_kass : Bool

pub record EnsuredAtas (Address : Type 0) : Type 0 where
  pub instructions : List (Instruction Address)
  pub user_yes_ata : Address
  pub user_no_ata : Address
  pub user_kass_ata : Option Address

module _ (p : Platform) (ids : MarketIds p) where
  unfoldable pub create_ata_idempotent_instruction :
      p.Address → p.Address → p.Address → p.Address → Instruction p.Address
  create_ata_idempotent_instruction payer ata owner mint = record {
    program_id = ids.ata_program_id;
    keys =
        w p payer true
        ∷ w p ata false
        ∷ ro p owner false
        ∷ ro p mint false
        ∷ ro p ids.system_program_id false
        ∷ ro p ids.token_program_id false
        ∷ [];
    payload = 1 ∷ [];
  }

  unfoldable pub create_idempotent_ata :
      p.Address → p.Address → p.Address → Result (Instruction p.Address × p.Address)
  create_idempotent_ata payer owner mint = do
    ata ← associated_token_account p ids (address owner) (address mint)
    ok (create_ata_idempotent_instruction payer ata.address owner mint, ata.address)

  -- `params.payer ? toAddr(params.payer) : owner`.
  unfoldable pub payer_or : Option (Input p) → p.Address → Result p.Address
  payer_or none owner = ok owner
  payer_or (some a) owner = addr p a

  -- The optional third instruction, with its account.
  unfoldable pub kass_ata :
      Bool
      → p.Address
      → p.Address
      → p.Address
      → Result (List (Instruction p.Address) × Option p.Address)
  kass_ata false payer owner mint = ok ([], none)
  kass_ata true payer owner mint = do
    (ix, ata) ← create_idempotent_ata payer owner mint
    ok (ix ∷ [], some ata)

  unfoldable pub ensure_conditional_atas_instructions :
      EnsureAtasParams p.Address p.Text → Result (EnsuredAtas p.Address)
  ensure_conditional_atas_instructions params = do
    owner ← addr p params.user
    payer ← payer_or params.payer owner
    (yes_ix, yes_ata) ← create_idempotent_ata payer owner params.refs.yes_mint
    (no_ix, no_ata) ← create_idempotent_ata payer owner params.refs.no_mint
    (kass_ixs, kass) ← kass_ata params.include_kass payer owner params.refs.kass_mint
    ok (record {
      instructions = yes_ix ∷ no_ix ∷ kass_ixs;
      user_yes_ata = yes_ata;
      user_no_ata = no_ata;
      user_kass_ata = kass;
    })
