-- ===== src/App/Amm/Verdict.antt =====
-- The progress bar and the settle verdict of app/src/data/ammV04.ts do not contradict each other.
use kassandra.Base.{
  ℕ, ◌+◌, ◌*◌, ◌^◌, ◌-◌, ◌≡◌, ◌<◌, ◌≤◌, ◌↔◌, refl, arith, Bool, true, false, Option, none, some,
  ltb, leb, ◌==◌, Bool-cases, inl, inr, ltb→lt, leb→le, ap, ◌∙◌,
}
use mathlib.Core.Path.{subst}
use native.Mathlib.Nat.{mul-add, add-mul, mul-le-mul_right, mul-pos}
use kassandra.App.Amm.{Floats, margin_progress, will_disqualify}

-- What is known of the floats: of numbers below 2 ^ 1023, which are finite as floats, rounding keeps
-- the order of quotients by the same number, and a number divided by itself is 1; and 0 is not above 1.
pub record Rounding (floats : Floats) : Type 1 where
  pub AtMost : floats.Number → floats.Number → Type 0
  pub one_number : floats.Number
  pub divide_mono :
      (a b c : ℕ)
      → 0 < c
      → a ≤ b
      → b < 2 ^ 1023
      → c < 2 ^ 1023
      → AtMost (floats.divide a c) (floats.divide b c)
  pub divide_self : (a : ℕ) → 0 < a → a < 2 ^ 1023 → floats.divide a a ≡ one_number
  pub zero_at_most_one : AtMost floats.zero_number one_number

-- A price is the quotient of a u128, and the margin's parts are u64.
abbrev pub IsPrice : Option ℕ → Type 0
IsPrice none = Unit {0}
IsPrice (some n) = n < 2 ^ 128

product_small : (a b : ℕ) → a < 2 ^ 128 → b < 2 ^ 64 → a * b < 2 ^ 1023
product_small a b l m =
    let wide : a * b ≤ 2 ^ 128 * b = mul-le-mul_right b (omega arith) in omega (arith, wide)

-- A bar that stands at 1 or above where the verdict is to disqualify, and at 1 or below where not.
pub data Shows {floats : Floats} (r : Rounding floats) : Bool → floats.Number → Type 0 where
  cleared : {bar : floats.Number} → r.AtMost r.one_number bar → Shows r true bar
  short : {bar : floats.Number} → r.AtMost bar r.one_number → Shows r false bar

-- The two tests behind the guards, on numbers.
verdict_above :
    (fail pass num den : ℕ)
    → pass < fail
    → (pass * (den + num) < fail * den) ↔ (pass * num < (fail - pass) * den)
verdict_above fail pass num den l =
    let a = mul-add pass den num in
    let b = add-mul pass (fail - pass) den in
    let c : (pass + (fail - pass)) * den ≡ fail * den = ap (λ k. k * den) (omega arith) in
    (λ h. omega (arith, a, b, c), λ h. omega (arith, a, b, c))

verdict_reads :
    (f q num den : ℕ)
    → 0 < q
    → will_disqualify (some f) (some q) num den ≡ ltb (q * (den + num)) (f * den)
unfolding will_disqualify
verdict_reads f q num den pos = let z : (q == 0) ≡ false = ground arith in rw z refl

module _ (floats : Floats) where
  progress_low :
      (f q num den : ℕ)
      → f ≤ q
      → margin_progress floats (some f) (some q) num den ≡ floats.zero_number
  unfolding margin_progress
  progress_low f q num den l =
      let z : leb f q ≡ true = ground arith in
      elim (Bool-cases (q == 0)) [ inl e ↦ rw e refl | inr e ↦ rw (e, z) refl ]

  progress_high :
      (f q num den : ℕ)
      → 0 < q
      → 0 < num
      → q < f
      → margin_progress floats (some f) (some q) num den ≡ floats.divide ((f - q) * den) (q * num)
  unfolding margin_progress
  progress_high f q num den pos m l =
      let a : (q == 0) ≡ false = ground arith in
      let b : leb f q ≡ false = ground arith in
      let many : 0 < q * num = mul-pos pos m in
      let c : (q * num == 0) ≡ false = ground arith in rw (a, b, c) refl

module _ {floats : Floats} (r : Rounding floats) where
  -- The quotient by what is needed, at one of the two sides of 1.
  quotient_above :
      (a c : ℕ) → 0 < c → c < a → a < 2 ^ 1023 → r.AtMost r.one_number (floats.divide a c)
  quotient_above a c pos l small =
      let small' : c < 2 ^ 1023 = omega arith in
      subst (λ n. r.AtMost n (floats.divide a c)) (r.divide_self c pos small')
        (r.divide_mono c a c pos (omega arith) small small')

  quotient_below :
      (a c : ℕ) → 0 < c → a ≤ c → c < 2 ^ 1023 → r.AtMost (floats.divide a c) r.one_number
  quotient_below a c pos l small =
      subst (λ n. r.AtMost (floats.divide a c) n) (r.divide_self c pos small)
        (r.divide_mono a c c pos l small small)

  module _ (num den : ℕ) (m : 0 < num) (num_small : num < 2 ^ 64) (den_small : den < 2 ^ 64) where
    diverging :
        (f q : ℕ)
        → f < 2 ^ 128
        → q < 2 ^ 128
        → 0 < q
        → q < f
        → Shows r
            (will_disqualify (some f) (some q) num den)
            (margin_progress floats (some f) (some q) num den)
    diverging f q f_small q_small pos l =
        let (up, down) = verdict_above f q num den l in
        let need : 0 < q * num = mul-pos pos m in
        let above : (f - q) * den < 2 ^ 1023 = product_small (f - q) den (omega arith) den_small in
        let below : q * num < 2 ^ 1023 = product_small q num q_small num_small in
        rw (verdict_reads f q num den pos, progress_high floats f q num den pos m l)
          (elim (Bool-cases (ltb (q * (den + num)) (f * den))) [
            | inl t ↦ rw t (cleared (quotient_above _ _ need (up (ltb→lt _ _ t)) above))
            | inr t ↦
                rw t
                  (short (quotient_below _ _ need (not_above _ _ (λ h. not_less t (down h))) below))
          ])
      where
        not_less : {a b : ℕ} → ltb a b ≡ false → ¬ (a < b)
        not_less t h = absurd (ground (arith, t))

        not_above : (a c : ℕ) → ¬ (c < a) → a ≤ c
        not_above a c h = ground (arith, h)

    together :
        (f q : ℕ)
        → 0 < q
        → f ≤ q
        → Shows r
            (will_disqualify (some f) (some q) num den)
            (margin_progress floats (some f) (some q) num den)
    together f q pos l =
        let wide = mul-add q den num in
        let low : f * den ≤ q * den = mul-le-mul_right den l in
        let survives : ltb (q * (den + num)) (f * den) ≡ false = ground (arith, wide, low) in
        rw (verdict_reads f q num den pos ∙ survives, progress_low floats f q num den l)
          (short r.zero_at_most_one)

    -- Where the margin is above zero, the numbers are in the ranges of their types, and division of
    -- floats rounds in order, the bar stands at 1 or above where a proposer is disqualified, and at 1
    -- or below where not.
    pub will_disqualify-Shows :
        (fail_twap pass_twap : Option ℕ)
        → IsPrice fail_twap
        → IsPrice pass_twap
        → Shows r
            (will_disqualify fail_twap pass_twap num den)
            (margin_progress floats fail_twap pass_twap num den)
    unfolding will_disqualify margin_progress
    will_disqualify-Shows none pass a b = short r.zero_at_most_one
    will_disqualify-Shows (some f) none a b = short r.zero_at_most_one
    will_disqualify-Shows (some f) (some q) a b = elim (Bool-cases (q == 0)) [
      | inl z ↦ rw z (short r.zero_at_most_one)
      | inr z ↦
          let pos : 0 < q = ground (arith, z) in
          elim (Bool-cases (leb f q)) [
            | inl t ↦ together f q pos (leb→le f q t)
            | inr t ↦ diverging f q a b pos (ground (arith, t))
          ]
    ]
