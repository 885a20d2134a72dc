-- ===== src/App/Amm.antt =====
-- app/src/data/ammV04.ts: the decoder of an `Amm`, its time-weighted price, and the settle verdict.
pub mod Verdict
use kassandra.Base.{
  ℕ, suc, ◌+◌, ◌*◌, ◌-◌, ◌/◌, List, [], ◌∷◌, Bool, true, false, ◌||◌, ◌&&◌, Option, none, some, ltb,
  leb, ◌==◌, if◌then◌else◌, length, take, Result, ok, err, amm_too_short, amm_discriminator, ◌>>=◌,
  ◌>>◌, guard,
}
use kassandra.Platform.{Platform}
use kassandra.Accounts.Common.{read_pubkey, read_u8, read_u64_le, read_u128_le}
use kassandra.Runner.{bytes_equal}

-- `sha256("account:Amm")[..8]`, from sdks/oracles/ts/src/amm-v04/constants.ts.
abbrev pub amm_account_discriminator : List ℕ
amm_account_discriminator = 0x8f ∷ 0xf5 ∷ 0xc8 ∷ 0x11 ∷ 0x4a ∷ 0xd6 ∷ 0xc4 ∷ 0x87 ∷ []

abbrev pub amm_min_len : ℕ
amm_min_len = 227

pub record AmmV04 (Address : Type 0) : Type 0 where
  pub base_mint : Address
  pub quote_mint : Address
  pub base_decimals : ℕ
  pub quote_decimals : ℕ
  pub base_amount : ℕ
  pub quote_amount : ℕ
  pub created_at_slot : ℕ
  pub last_updated_slot : ℕ
  pub start_delay_slots : ℕ
  pub aggregator : ℕ

module _ (p : Platform) where
  unfoldable pub decode_amm_v04 : List ℕ → Result (AmmV04 p.Address)
  decode_amm_v04 raw = do
    guard (leb amm_min_len (length raw)) (amm_too_short (length raw))
    guard (bytes_equal (take 8 raw) amm_account_discriminator) amm_discriminator
    base_mint ← read_pubkey p raw 49
    quote_mint ← read_pubkey p raw 81
    base_decimals ← read_u8 raw 113
    quote_decimals ← read_u8 raw 114
    base_amount ← read_u64_le raw 115
    quote_amount ← read_u64_le raw 123
    created_at_slot ← read_u64_le raw 9
    last_updated_slot ← read_u64_le raw 131
    start_delay_slots ← read_u64_le raw 219
    aggregator ← read_u128_le raw 171
    ok (record {
      base_mint = base_mint;
      quote_mint = quote_mint;
      base_decimals = base_decimals;
      quote_decimals = quote_decimals;
      base_amount = base_amount;
      quote_amount = quote_amount;
      created_at_slot = created_at_slot;
      last_updated_slot = last_updated_slot;
      start_delay_slots = start_delay_slots;
      aggregator = aggregator;
    })

-- `slots <= 0n` on integers is `last_updated_slot <= startSlot` on naturals.
unfoldable pub twap_price : {Address : Type 0} → AmmV04 Address → Option ℕ
twap_price amm =
    let start_slot = amm.created_at_slot + amm.start_delay_slots in
    let slots = amm.last_updated_slot - start_slot in
    if leb amm.last_updated_slot start_slot || amm.aggregator == 0
    then none
    else some (amm.aggregator / slots)

-- Floats, as far as the progress needs them: the literal 0, and `Number(a) / Number(b)` of integers.
pub record Floats : Type 1 where
  pub Number : Type 0
  pub zero_number : Number
  pub divide : ℕ → ℕ → Number

module _ (floats : Floats) where
  unfoldable pub margin_progress : Option ℕ → Option ℕ → ℕ → ℕ → floats.Number
  margin_progress none pass_twap margin_num margin_den = floats.zero_number
  margin_progress (some fail) none margin_num margin_den = floats.zero_number
  margin_progress (some fail) (some pass) margin_num margin_den =
      if pass == 0
      then floats.zero_number
      else if leb fail pass
      then floats.zero_number
      else let need = pass * margin_num in
        if need == 0 then floats.zero_number else floats.divide ((fail - pass) * margin_den) need

unfoldable pub will_disqualify : Option ℕ → Option ℕ → ℕ → ℕ → Bool
will_disqualify none pass_twap margin_num margin_den = false
will_disqualify (some fail) none margin_num margin_den = false
will_disqualify (some fail) (some pass) margin_num margin_den =
    if pass == 0 then false else ltb (pass * (margin_den + margin_num)) (fail * margin_den)
