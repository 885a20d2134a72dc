-- ===== src/App/Trade/Covered.antt =====
-- A sale merges no more than what it has of each leg.
use native.Mathlib.Nat.{div-le_of_le-mul}
use text.Mathlib.Text.{◌==◌}
use kassandra.Base.{
  ℕ, ◌+◌, ◌/◌, ◌<◌, ◌≤◌, ◌≡◌, refl, ap, sym, ◌∙◌, arith, List, ◌∷◌, some, none, ok, ok-inj, ◌++◌,
  Bool, not, ltb, guard-eq-ok, >>=-eq-ok, false,
}
use kassandra.Platform.{Platform}
use kassandra.Bytes.{u64_le}
use kassandra.Instructions.Payload.{Instruction, address, addr}
use kassandra.App.Pack.{Web3, or_else}
use kassandra.App.MarketView.{AmmReserves}
use kassandra.Markets.Payload.{MarketIds}
use kassandra.Markets.Keys.{payload_at}
use kassandra.Markets.Flows.Atas.{
  EnsureAtasParams, EnsuredAtas, kass_ata, create_idempotent_ata,
  ensure_conditional_atas_instructions,
}
use kassandra.Markets.Flows.Trade.{SellParams, Traded, sell_instructions}
use kassandra.Markets.Flows.Trade.Legs.{amount_of, sell_legs}
use kassandra.App.Trade.{
  reserve_pair, amm_swap_out, optimal_unwind_swap, trade_compute_units, default_slippage_bps,
  SellSizes, sell_sizes, BuildSellArgs, to_address, build_sell_ixs,
}
use kassandra.App.Trade.Pool.{min_out_from_slippage-le}

optimal_unwind_swap-le :
    (root : ℕ → ℕ → ℕ → ℕ) (held i o : ℕ) → optimal_unwind_swap root held i o ≤ held
unfolding optimal_unwind_swap
optimal_unwind_swap-le root held i o =
    let half : held / 2 ≤ held = div-le_of_le-mul 2 (omega arith) in ground (arith, half)

-- The sizes of a sale of `position` fit what there is.
pub record FitsSale (position : ℕ) (pair : ℕ × ℕ) (sizes : SellSizes) : Type 0 where
  pub within : sizes.swap_amount + sizes.merge_amount ≤ position
  pub merged : sizes.merge_amount ≤ sizes.output_amount_min
  pub quoted : sizes.output_amount_min ≤ amm_swap_out sizes.swap_amount (pair.0) (pair.1)

sell_sizes-FitsSale :
    (root : ℕ → ℕ → ℕ → ℕ) (r : AmmReserves) (held_yes : Bool) (position bps : ℕ)
    → FitsSale position (reserve_pair r (not held_yes)) (sell_sizes root r held_yes position bps)
unfolding sell_sizes
sell_sizes-FitsSale root r held_yes position bps =
    let pair = reserve_pair r (not held_yes) in
    let swap = optimal_unwind_swap root position (pair.0) (pair.1) in
    let held : swap ≤ position = optimal_unwind_swap-le root position (pair.0) (pair.1) in
    let floor = min_out_from_slippage-le (amm_swap_out swap (pair.0) (pair.1)) bps in
    record { within = ground arith; merged = ground arith; quoted = floor }

module _ (p : Platform) (ids : MarketIds p) (web3 : Web3 p) where
  module _ (args : BuildSellArgs p) (r : AmmReserves) where
    -- The reserve that the sale pays into and the one it is paid out of, and its sizes.
    abbrev pub pair_of : ℕ × ℕ
    pair_of = reserve_pair r (not (args.outcome == "yes"))

    abbrev pub sizes_of : (ℕ → ℕ → ℕ → ℕ) → SellSizes
    sizes_of root =
        sell_sizes root r (args.outcome == "yes") args.position_amount
          (or_else args.slippage_bps default_slippage_bps)

  abbrev ensured_args : BuildSellArgs p → p.Address → EnsureAtasParams p.Address p.Text
  ensured_args args user = record {
    refs = args.refs;
    user = address user;
    payer = none;
    include_kass = false;
  }

  abbrev sold_args :
      BuildSellArgs p
      → SellSizes
      → p.Address
      → p.Address
      → EnsuredAtas p.Address
      → SellParams p.Address p.Text
  sold_args args sizes user kass e = record {
    refs = args.refs;
    user = address user;
    outcome = args.outcome;
    swap_amount = sizes.swap_amount;
    merge_amount = sizes.merge_amount;
    user_kass_ata = address kass;
    user_yes_ata = some (address e.user_yes_ata);
    user_no_ata = some (address e.user_no_ata);
    output_amount_min = some sizes.output_amount_min;
  }

  ensured_two :
      (params : EnsureAtasParams p.Address p.Text) (e : EnsuredAtas p.Address)
      (made : List (Instruction p.Address)) (first : Instruction p.Address) (n : ℕ)
      → params.include_kass ≡ false
      → ensure_conditional_atas_instructions p ids params ≡ ok e
      → payload_at (first ∷ e.instructions ++ made) (3 + n) ≡ payload_at made n
  unfolding ensure_conditional_atas_instructions kass_ata create_idempotent_ata
  ensured_two params e made first n k h = ground arith

  -- The data of the two legs stand behind three other instructions.
  legs_behind :
      (args : BuildSellArgs p) (sizes : SellSizes) (user kass : p.Address)
      (e : EnsuredAtas p.Address) (made : Traded p.Address) (first : Instruction p.Address)
      (ixs : List (Instruction p.Address))
      → ensure_conditional_atas_instructions p ids (ensured_args args user) ≡ ok e
      → sell_instructions p ids (sold_args args sizes user kass e) ≡ ok made
      → first ∷ e.instructions ++ made.instructions ≡ ixs
      → (amount_of (payload_at ixs 3) 9 ≡ u64_le sizes.swap_amount)
        × (amount_of (payload_at ixs 3) 17 ≡ u64_le sizes.output_amount_min)
        × (amount_of (payload_at ixs 4) 8 ≡ u64_le sizes.merge_amount)
  unfolding addr
  legs_behind args sizes user kass e made first ixs ee em all =
      let behind : (n : ℕ) → payload_at ixs (3 + n) ≡ payload_at made.instructions n = λ n.
        ap (λ l. payload_at l (3 + n)) (sym all)
        ∙ ensured_two (ensured_args args user) e made.instructions first n refl ee in
      let (n, c0, c1, y, o, input, least, merge, side) =
        sell_legs p ids (sold_args args sizes user kass e) made user em refl in
      (
        ap (λ d. amount_of d 9) (behind 0) ∙ input,
        ap (λ d. amount_of d 17) (behind 0) ∙ least,
        ap (λ d. amount_of d 8) (behind 1) ∙ merge,
      )

  -- The data of a sale that is built at given reserves say its sizes: the swap puts in what is
  -- swapped and asks for the least output, and the merge takes what is merged. None of the amounts
  -- swapped and merged is zero; together they are within the position, so that the rest of the leg
  -- that is held covers the merge; and the merge is within the least output, which is within what
  -- the pool is quoted to pay, so that the other leg covers it too.
  pub build_sell_ixs_covered :
      (root : ℕ → ℕ → ℕ → ℕ) (args : BuildSellArgs p) (r : AmmReserves)
      (ixs : List (Instruction p.Address))
      → build_sell_ixs p ids web3 root args ≡ ok ixs
      → args.reserves ≡ some r
      → (amount_of (payload_at ixs 3) 9 ≡ u64_le (sizes_of args r root).swap_amount)
        × (amount_of (payload_at ixs 3) 17 ≡ u64_le (sizes_of args r root).output_amount_min)
        × (amount_of (payload_at ixs 4) 8 ≡ u64_le (sizes_of args r root).merge_amount)
        × (0 < (sizes_of args r root).swap_amount)
        × (0 < (sizes_of args r root).merge_amount)
        × FitsSale args.position_amount (pair_of args r) (sizes_of args r root)
  unfolding build_sell_ixs
  build_sell_ixs_covered root args r ixs h given =
      let (user, eu, h1) = >>=-eq-ok (to_address p "Trader" args.user) _ h in
      let (amount, h2) = guard-eq-ok (ltb 0 args.position_amount) _ _ h1 in
      let h3 = rw given at h2 in
      let sizes = sizes_of args r root in
      let (swapped, h4) = guard-eq-ok (ltb 0 sizes.swap_amount) _ _ h3 in
      let (merged, h5) = guard-eq-ok (ltb 0 sizes.merge_amount) _ _ h4 in
      let (e, ee, h6) =
        >>=-eq-ok (ensure_conditional_atas_instructions p ids (ensured_args args user)) _ h5 in
      let (kass, ek, h7) = >>=-eq-ok (to_address p "KASS ATA" args.user_kass_ata) _ h6 in
      let (made, em, h8) =
        >>=-eq-ok (sell_instructions p ids (sold_args args sizes user kass e)) _ h7 in
      let (swap_in, floor, merge_in) =
        legs_behind args sizes user kass e made (web3.set_compute_unit_limit trade_compute_units)
          ixs ee em (ok-inj h8) in
      (
        swap_in,
        floor,
        merge_in,
        ground (arith, swapped),
        ground (arith, merged),
        sell_sizes-FitsSale root r (args.outcome == "yes") args.position_amount
            (or_else args.slippage_bps default_slippage_bps),
      )
