-- ===== src/App/Trade.antt =====
-- app/src/market/data/actions/trade.ts and `toAddress` of ata.ts. The root of the unwinding equation,
-- which the code takes in floats, is a parameter; amounts are at most 2 ^ 53, where `Number` is exact.
pub mod Pool
pub mod Covered
use Prim.Native.String.{String}
use text.Mathlib.Text.{◌==◌}
use kassandra.Base.{
  ℕ, ◌+◌, ◌*◌, ◌-◌, ◌/◌, List, [], ◌∷◌, ◌++◌, Bool, true, false, not, ◌||◌, Option, none, some,
  Result, ok, err, ltb, min, max, if◌then◌else◌, guard, ◌>>=◌, ◌>>◌, invalid_field, not_positive,
  no_reserves, too_small,
}
use kassandra.Platform.{Platform}
use kassandra.Instructions.Payload.{Instruction, AddressInput, address, base58, Input}
use kassandra.App.Pack.{Web3, or_else}
use kassandra.App.MarketView.{AmmReserves}
use kassandra.Markets.Payload.{MarketIds}
use kassandra.Markets.Flows.Compose.{MarketRefs}
use kassandra.Markets.Flows.Atas.{ensure_conditional_atas_instructions}
use kassandra.Markets.Flows.Trade.{buy_instructions, sell_instructions}

abbrev pub trade_compute_units : ℕ
trade_compute_units = 400000

abbrev pub amm_fee_bps : ℕ
amm_fee_bps = 100

abbrev pub default_slippage_bps : ℕ
default_slippage_bps = 100

-- `a <= 0n || b <= 0n || c <= 0n` of amounts that are not negative.
abbrev pub any_zero : ℕ → ℕ → ℕ → Bool
any_zero a b c = not (ltb 0 a) || not (ltb 0 b) || not (ltb 0 c)

unfoldable pub constant_product_out : ℕ → ℕ → ℕ → ℕ
constant_product_out amount_in in_reserve out_reserve =
    if any_zero amount_in in_reserve out_reserve
    then 0
    else (amount_in * out_reserve) / (in_reserve + amount_in)

unfoldable pub amm_swap_out : ℕ → ℕ → ℕ → ℕ
amm_swap_out amount_in in_reserve out_reserve =
    if any_zero amount_in in_reserve out_reserve
    then 0
    else constant_product_out ((amount_in * (10000 - amm_fee_bps)) / 10000) in_reserve out_reserve

unfoldable pub min_out_from_slippage : ℕ → ℕ → ℕ
min_out_from_slippage estimate_out slippage_bps =
    (estimate_out * (10000 - min slippage_bps 10000)) / 10000

-- The reserve that is paid into, and the one that is paid out of.
abbrev pub reserve_pair : AmmReserves → Bool → ℕ × ℕ
reserve_pair reserves input_is_quote =
    if input_is_quote then (reserves.quote, reserves.base) else (reserves.base, reserves.quote)

pub record Preview : Type 0 where
  pub received : ℕ
  pub output_amount_min : ℕ

abbrev pub preview_with : ℕ → ℕ → ℕ × ℕ → Preview
preview_with kass_amount slippage_bps (in_reserve, out_reserve) =
    let swap_out = amm_swap_out kass_amount in_reserve out_reserve in
    record {
      received = kass_amount + swap_out;
      output_amount_min = min_out_from_slippage swap_out slippage_bps;
    }

unfoldable pub preview_buy : Option AmmReserves → String → ℕ → ℕ → Preview
preview_buy none outcome kass_amount slippage_bps = record {
  received = kass_amount;
  output_amount_min = 0;
}
preview_buy (some reserves) outcome kass_amount slippage_bps =
    if not (ltb 0 kass_amount)
    then record { received = kass_amount; output_amount_min = 0 }
    else preview_with kass_amount slippage_bps (reserve_pair reserves (outcome == "yes"))

-- `root held in out`: the positive root, rounded down, and 0 where it is negative.
unfoldable pub optimal_unwind_swap : (ℕ → ℕ → ℕ → ℕ) → ℕ → ℕ → ℕ → ℕ
optimal_unwind_swap root held in_reserve out_reserve =
    if not (ltb 1 held)
    then 0
    else if not (ltb 0 in_reserve) || not (ltb 0 out_reserve)
    then held / 2
    else min (max (root held in_reserve out_reserve) 1) (held - 1)

-- The amounts of a sale: what is swapped, the least that the swap may pay, and what is merged.
pub record SellSizes : Type 0 where
  pub swap_amount : ℕ
  pub output_amount_min : ℕ
  pub merge_amount : ℕ

abbrev pub sizes_with : ℕ → ℕ → ℕ → ℕ → ℕ → SellSizes
sizes_with position slippage_bps in_reserve out_reserve swap_amount =
    let floor =
      min_out_from_slippage (amm_swap_out swap_amount in_reserve out_reserve) slippage_bps in
    let remainder = position - swap_amount in
    record {
      swap_amount = swap_amount;
      output_amount_min = floor;
      merge_amount = if ltb remainder floor then remainder else floor;
    }

unfoldable pub sell_sizes : (ℕ → ℕ → ℕ → ℕ) → AmmReserves → Bool → ℕ → ℕ → SellSizes
sell_sizes root reserves holding_yes position slippage_bps =
    let pair = reserve_pair reserves (not holding_yes) in
    sizes_with position slippage_bps (pair.0) (pair.1)
      (optimal_unwind_swap root position (pair.0) (pair.1))

pub record BuildBuyArgs (p : Platform) : Type 0 where
  pub refs : MarketRefs p.Address
  pub user : Input p
  pub outcome : String
  pub user_kass_ata : Input p
  pub reserves : Option AmmReserves
  pub slippage_bps : Option ℕ
  pub kass_amount : ℕ

pub record BuildSellArgs (p : Platform) : Type 0 where
  pub refs : MarketRefs p.Address
  pub user : Input p
  pub outcome : String
  pub user_kass_ata : Input p
  pub reserves : Option AmmReserves
  pub slippage_bps : Option ℕ
  pub position_amount : ℕ

-- What the constructor throws is thrown again as a `ValidationError` about the field.
abbrev pub named_field : {A : Type 0} → String → Result A → Result A
named_field field (ok a) = ok a
named_field field (err e) = err (invalid_field field)

unfoldable pub to_address : (p : Platform) → String → Input p → Result p.Address
to_address p field (address a) = ok a
to_address p field (base58 t) = named_field field (p.address_of_text t)

module _ (p : Platform) (ids : MarketIds p) (web3 : Web3 p) where
  unfoldable pub build_buy_ixs : BuildBuyArgs p → Result (List (Instruction p.Address))
  build_buy_ixs args = do
    user ← to_address p "Trader" args.user
    guard (ltb 0 args.kass_amount) not_positive
    let preview =
        preview_buy args.reserves args.outcome args.kass_amount
          (or_else args.slippage_bps default_slippage_bps)
    ensure ←
        ensure_conditional_atas_instructions p ids
          (record { refs = args.refs; user = address user; payer = none; include_kass = false })
    kass_ata ← to_address p "KASS ATA" args.user_kass_ata
    buy ← buy_instructions p ids (record {
      refs = args.refs;
      user = address user;
      outcome = args.outcome;
      kass_amount = args.kass_amount;
      user_kass_ata = address kass_ata;
      user_yes_ata = some (address ensure.user_yes_ata);
      user_no_ata = some (address ensure.user_no_ata);
      output_amount_min = some preview.output_amount_min;
    })
    ok (web3.set_compute_unit_limit trade_compute_units ∷ ensure.instructions ++ buy.instructions)

  -- `if (!args.reserves) throw`.
  abbrev pub live_reserves : Option AmmReserves → Result AmmReserves
  live_reserves none = err no_reserves
  live_reserves (some reserves) = ok reserves

  unfoldable pub build_sell_ixs :
      (ℕ → ℕ → ℕ → ℕ) → BuildSellArgs p → Result (List (Instruction p.Address))
  build_sell_ixs root args = do
    user ← to_address p "Trader" args.user
    guard (ltb 0 args.position_amount) not_positive
    reserves ← live_reserves args.reserves
    let sizes =
        sell_sizes root reserves (args.outcome == "yes") args.position_amount
          (or_else args.slippage_bps default_slippage_bps)
    guard (ltb 0 sizes.swap_amount) too_small
    guard (ltb 0 sizes.merge_amount) too_small
    ensure ←
        ensure_conditional_atas_instructions p ids
          (record { refs = args.refs; user = address user; payer = none; include_kass = false })
    kass_ata ← to_address p "KASS ATA" args.user_kass_ata
    sell ← sell_instructions p ids (record {
      refs = args.refs;
      user = address user;
      outcome = args.outcome;
      swap_amount = sizes.swap_amount;
      merge_amount = sizes.merge_amount;
      user_kass_ata = address kass_ata;
      user_yes_ata = some (address ensure.user_yes_ata);
      user_no_ata = some (address ensure.user_no_ata);
      output_amount_min = some sizes.output_amount_min;
    })
    ok (web3.set_compute_unit_limit trade_compute_units ∷ ensure.instructions ++ sell.instructions)
