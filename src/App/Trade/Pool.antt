-- ===== src/App/Trade/Pool.antt =====
-- What a swap may be paid, against what the pool keeps.
use native.Mathlib.Nat.{
  mul-le-mul_left, mul-le-mul_right, add-mul, mul-add, mul_comm, div-mul-le_self, div-le_of_le-mul,
  div-lt_iff_lt-mul, mul-pos,
}
use kassandra.Base.{ℕ, ◌+◌, ◌*◌, ◌-◌, ◌/◌, ◌<◌, ◌≤◌, ◌≡◌, arith, Bool-cases, inl, inr, min, sym}
use mathlib.Core.Path.{subst}
use kassandra.App.Trade.{any_zero, constant_product_out, amm_swap_out, min_out_from_slippage}

constant_product_out-lt : (a i o : ℕ) → 0 < o → constant_product_out a i o < o
unfolding constant_product_out
constant_product_out-lt a i o po = elim (Bool-cases (any_zero a i o)) [
  | inl z ↦ ground arith
  | inr nz ↦
      let pa : 0 < a = ground (arith, nz) in
      let pi : 0 < i = ground (arith, nz) in
      let less : a * o < o * (i + a) = omega (arith, mul-add o i a, mul_comm a o, mul-pos po pi) in
      let quotient : a * o / (i + a) < o = (div-lt_iff_lt-mul {k = i + a} (omega arith)).1 less in
      ground (arith, nz, quotient)
]

constant_product_out-share : (a i o : ℕ) → constant_product_out a i o * (i + a) ≤ a * o
unfolding constant_product_out
constant_product_out-share a i o = elim (Bool-cases (any_zero a i o)) [
  | inl z ↦ ground arith
  | inr nz ↦ let whole = div-mul-le_self (a * o) (i + a) in ground (arith, nz, whole)
]

-- Where the output takes no more than its share, what is left times the grown reserve has not shrunk.
product_kept : (a i o q : ℕ) → q < o → q * (i + a) ≤ a * o → i * o ≤ (i + a) * (o - q)
product_kept a i o q less share =
    let split : q + (o - q) ≡ o = omega arith in
    let whole : i * (q + (o - q)) ≤ (i + a) * (o - q) =
      let share' : q * (i + a) ≤ a * (q + (o - q)) =
        subst (λ k. q * (i + a) ≤ a * k) (sym split) share in
      omega (
        arith,
        share',
        mul-add i q (o - q),
        mul-add a q (o - q),
        mul-add q i a,
        add-mul i a (o - q),
        mul_comm q i,
        mul_comm q a,
      ) in
    subst (λ k. i * k ≤ (i + a) * (o - q)) split whole

after_fee-le : (a : ℕ) → a * 9900 / 10000 ≤ a
after_fee-le a = div-le_of_le-mul 10000 (omega arith)

share_grows : (x d i o q : ℕ) → q < o → q * (i + x) ≤ x * o → q * (i + (x + d)) ≤ (x + d) * o
share_grows x d i o q less share =
    let more : q * d ≤ o * d = mul-le-mul_right d (omega arith) in
    omega
      (arith, more, mul-add q i x, mul-add q i (x + d), mul-add q x d, add-mul x d o, mul_comm o d)

amm_swap_out-lt : (a i o : ℕ) → 0 < o → amm_swap_out a i o < o
unfolding amm_swap_out
amm_swap_out-lt a i o po =
    let less = constant_product_out-lt (a * 9900 / 10000) i o po in ground (arith, less)

amm_swap_out-share : (a i o : ℕ) → amm_swap_out a i o * (i + a) ≤ a * o
unfolding amm_swap_out
amm_swap_out-share a i o = elim (Bool-cases (any_zero a i o)) [
  | inl z ↦ ground arith
  | inr nz ↦
      let x = a * 9900 / 10000 in
      let less = constant_product_out-lt x i o (ground (arith, nz)) in
      let grown =
        share_grows x (a - x) i o (constant_product_out x i o) less
          (constant_product_out-share x i o) in
      let whole : x + (a - x) ≡ a = omega (arith, after_fee-le a) in
      let share = subst (λ k. constant_product_out x i o * (i + k) ≤ k * o) whole grown in
      ground (arith, nz, share)
]

-- Of a pool that holds any of what is bought, the output that the app quotes is less than its reserve,
-- and after a swap that pays it the product of the two reserves has not shrunk.
pub amm_swap_out_keeps :
    (amount_in in_reserve out_reserve : ℕ)
    → 0 < out_reserve
    → (amm_swap_out amount_in in_reserve out_reserve < out_reserve)
      × (in_reserve * out_reserve
          ≤ (in_reserve + amount_in)
            * (out_reserve - amm_swap_out amount_in in_reserve out_reserve))
amm_swap_out_keeps a i o po =
    let less = amm_swap_out-lt a i o po in
    (less, product_kept a i o (amm_swap_out a i o) less (amm_swap_out-share a i o))

pub min_out_from_slippage-le : (out bps : ℕ) → min_out_from_slippage out bps ≤ out
unfolding min_out_from_slippage
min_out_from_slippage-le out bps =
    let part : out * (10000 - min bps 10000) ≤ out * 10000 = mul-le-mul_left out (omega arith) in
    div-le_of_le-mul 10000 (omega (arith, part))
