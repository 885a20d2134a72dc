-- ===== src/Markets/Flows/AddLiquidity/Bounds.antt =====
-- The amounts of a deposit stay within what the depositor gives.
use native.Mathlib.Nat.{
  mul-le-mul_left, mul-le-mul_right, add-mul, div-mul-le_self, div-lt_iff_lt-mul, div-le_of_le-mul,
  mul-pos,
}
use kassandra.Base.{
  ℕ, ◌+◌, ◌*◌, ◌-◌, ◌/◌, ◌≡◌, ◌<◌, ◌≤◌, arith, ok, max, ap, ◌==◌, Bool-cases, inl, inr,
}
use kassandra.Platform.{Platform}
use kassandra.Markets.Payload.{MarketIds}
use kassandra.Markets.Flows.AddLiquidity.{
  AddLiquidityFlowParams, AddLiquidityFlowResult, quote_amount, expected_lp, min_lp_tokens,
  slippage_or_default, add_liquidity_instructions,
}

quote_amount-le : (amount base quote : ℕ) → quote_amount amount base quote ≤ amount
unfolding quote_amount
quote_amount-le a b q = ground arith

-- Two units of headroom are left below the share in the ratio of the reserves.
headroom :
    (amount base quote : ℕ)
    → 0 < base
    → 0 < quote_amount amount base quote
    → quote_amount amount base quote + 2 ≤ amount * quote / base
unfolding quote_amount
headroom a b q pos h = ground arith

ratio_lt :
    (amount base quote : ℕ)
    → 0 < base
    → 0 < quote
    → 0 < amount
    → quote_amount amount base quote * base / quote < amount
ratio_lt a b q pb pq pa = elim (Bool-cases (quote_amount a b q == 0)) [
  | inl z ↦
      let none_in : quote_amount a b q ≡ 0 = ground (arith, z) in
      rw none_in ((div-lt_iff_lt-mul pq).1 (let m = mul-pos pa pq in omega (arith)))
  | inr nz ↦
      let d = quote_amount a b q in
      let room = headroom a b q pb (ground (arith, nz)) in
      let scaled : (d + 2) * b ≤ a * q / b * b = mul-le-mul_right b room in
      let whole = div-mul-le_self (a * q) b in
      let split = add-mul d 2 b in (div-lt_iff_lt-mul pq).1 (omega (arith, scaled, whole, split))
]

min_lp_tokens_bounds :
    (expected bps : ℕ)
    → (1 ≤ min_lp_tokens expected bps) × (min_lp_tokens expected bps ≤ max 1 expected)
unfolding min_lp_tokens
min_lp_tokens_bounds e s =
    let part : e * (10000 - s) ≤ e * 10000 = mul-le-mul_left e (omega arith) in
    let floor : e * (10000 - s) / 10000 ≤ e = div-le_of_le-mul 10000 (omega arith) in
    (ground arith, ground arith)

expected_lp_share : (d quote supply : ℕ) → expected_lp d quote supply * quote ≤ d * supply
unfolding expected_lp
expected_lp_share d q s = let whole = div-mul-le_self (d * s) q in ground (arith, whole)

module _ (p : Platform) (ids : MarketIds p) where
  figures :
      (params : AddLiquidityFlowParams p.Address p.Text) (made : AddLiquidityFlowResult p.Address)
      → add_liquidity_instructions p ids params ≡ ok made
      → (made.quote_amount ≡ quote_amount params.amount params.base_reserve params.quote_reserve)
        × (made.max_base_amount ≡ params.amount)
        × (made.expected_lp ≡ expected_lp made.quote_amount params.quote_reserve params.lp_supply)
        × (made.min_lp_tokens
            ≡ min_lp_tokens made.expected_lp (slippage_or_default params.slippage_bps))
  unfolding add_liquidity_instructions
  figures params made h = ground arith

  -- A deposit into a pool with both reserves: what the pool takes of the quote and of the base stays
  -- within the amount that is split, where the pool takes of the base its share in the ratio of the
  -- reserves rounded up by at most one; and the floor on the minted LP is at least one, at most the
  -- estimate where that is not zero, and the estimate no more than the share of the supply.
  pub add_liquidity_bounds :
      (params : AddLiquidityFlowParams p.Address p.Text) (made : AddLiquidityFlowResult p.Address)
      (base_taken : ℕ)
      → add_liquidity_instructions p ids params ≡ ok made
      → 0 < params.base_reserve
      → 0 < params.quote_reserve
      → 0 < params.amount
      → base_taken ≤ made.quote_amount * params.base_reserve / params.quote_reserve + 1
      → (made.quote_amount ≤ params.amount)
        × (base_taken ≤ made.max_base_amount)
        × (made.max_base_amount ≤ params.amount)
        × (1 ≤ made.min_lp_tokens)
        × (made.min_lp_tokens ≤ max 1 made.expected_lp)
        × (made.expected_lp * params.quote_reserve ≤ made.quote_amount * params.lp_supply)
  add_liquidity_bounds params made taken h pb pq pa t =
      let (quote, most, expected, floor) = figures params made h in
      let ratio = ratio_lt params.amount params.base_reserve params.quote_reserve pb pq pa in
      let (low, high) =
        min_lp_tokens_bounds made.expected_lp (slippage_or_default params.slippage_bps) in
      let share = expected_lp_share made.quote_amount params.quote_reserve params.lp_supply in
      let within = ap (λ d. d * params.base_reserve / params.quote_reserve) quote in
      let less = quote_amount-le params.amount params.base_reserve params.quote_reserve in
      (
        omega (arith, quote, less),
        omega (arith, most, within, ratio),
        omega (arith, most),
        omega (arith, floor, low),
        omega (arith, floor, high),
        rw (← expected) at share,
      )
