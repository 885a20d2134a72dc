-- ===== src/App/MarketView/Pool.antt =====
-- What a pool is worth.
use mathlib.Core.Path.{subst}
use native.Mathlib.Nat.{
  mul-add, add-mul, mul_comm, mul_assoc, add_comm, div-mul-le_self, div-le_of_le-mul,
  le_of_mul-le-mul_right,
}
use kassandra.Base.{
  ℕ, ◌+◌, ◌*◌, ◌-◌, ◌/◌, ◌<◌, ◌≤◌, ◌≡◌, arith, some, ◌==◌, leb, leb→le, Bool-cases, inl, inr,
}
use kassandra.App.MarketView.{AmmReserves, pool_value_kass}

square_ordered : (b d : ℕ) → 4 * (b * (b + d)) ≤ (b + (b + d)) * (b + (b + d))
square_ordered b d =
    let s : ℕ = b + (b + d) in
    omega (
      arith,
      mul-add b b d,
      add-mul b (b + d) s,
      mul-add b b (b + d),
      add-mul b d s,
      mul-add d b (b + d),
      mul-add d b d,
      mul_comm d b,
    )

-- Four times a product is at most the square of the sum.
square_bound : (b q : ℕ) → 4 * (b * q) ≤ (b + q) * (b + q)
square_bound b q = elim (Bool-cases (leb b q)) [
  | inl e ↦
      let l = leb→le b q e in
      let split : b + (q - b) ≡ q = omega arith in
      subst (λ k. 4 * (b * k) ≤ (b + k) * (b + k)) split (square_ordered b (q - b))
  | inr e ↦
      let l : q ≤ b = ground (arith, e) in
      let split : q + (b - q) ≡ b = omega arith in
      let swapped = subst (λ k. 4 * (q * k) ≤ (q + k) * (q + k)) split (square_ordered q (b - q)) in
      rw (mul_comm b q, add_comm b q) swapped
]

value_bounds :
    (b q : ℕ)
    → 0 < b + q
    → (2 * (2 * b * q / (b + q)) ≤ b + q)
      × (2 * b * q / (b + q) ≤ 2 * b)
      × (2 * b * q / (b + q) ≤ 2 * q)
value_bounds b q pos =
    let whole = div-mul-le_self (2 * b * q) (b + q) in
    let assoc = mul_assoc 2 b q in
    let square = square_bound b q in
    let v : ℕ = 2 * b * q / (b + q) in
    let twice = mul_assoc 2 v (b + q) in
    (
      le_of_mul-le-mul_right (omega (arith, whole, assoc, square, twice)) pos,
      div-le_of_le-mul (b + q)
          (omega (arith, assoc, add-mul b q (2 * b), mul_comm q (2 * b), assoc)),
      div-le_of_le-mul (b + q) (
          omega
            (arith, assoc, add-mul b q (2 * q), mul_comm b (2 * q), mul_assoc 2 q b, mul_comm q b)),
    )

-- The value of a pool is at most half of all its tokens, which is that of as many complete sets at even
-- odds, and at most twice the smaller reserve.
pub pool_value_kass_bounds :
    (reserves : AmmReserves) (value : ℕ)
    → pool_value_kass (some reserves) ≡ some value
    → (2 * value ≤ reserves.base + reserves.quote)
      × (value ≤ 2 * reserves.base)
      × (value ≤ 2 * reserves.quote)
unfolding pool_value_kass
pool_value_kass_bounds r v h = elim (Bool-cases (r.base + r.quote == 0)) [
  | inl z ↦ ground (arith, z)
  | inr nz ↦
      let same : 2 * r.base * r.quote / (r.base + r.quote) ≡ v = ground (arith, nz) in
      subst (λ k. (2 * k ≤ r.base + r.quote) × (k ≤ 2 * r.base) × (k ≤ 2 * r.quote)) same
        (value_bounds r.base r.quote (ground (arith, nz)))
]
