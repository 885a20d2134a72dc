-- ===== src/App/MarketView/Shares.antt =====
-- The shares of the contributors do not add up to more LP than there is.
use native.Mathlib.Nat.{mul-le-mul_right, add-mul, div-mul-le_self, le_of_mul-le-mul_right}
use kassandra.Base.{ℕ, ◌+◌, ◌*◌, ◌/◌, ◌<◌, ◌≤◌, arith, List, [], ◌∷◌}
use kassandra.Markets.Accounts.Market.{Market}
use kassandra.Markets.Accounts.Contribution.{Contribution}
use kassandra.App.MarketView.{contributor_lp}

module _ {Address : Type 0} where
  abbrev pub total : (Contribution Address → ℕ) → List (Contribution Address) → ℕ
  total f [] = 0
  total f (c ∷ cs) = f c + total f cs

  -- Scaled by the sum of the contributions, each share is within its part.
  contributor_lp_scaled :
      (c : Contribution Address) (market : Market Address)
      → contributor_lp c market * market.activation_contributed
        ≤ c.amount * market.activation_lp + c.late_lp * market.activation_contributed
  unfolding contributor_lp
  contributor_lp_scaled c m =
      let share = c.amount * m.activation_lp / m.activation_contributed in
      let whole = div-mul-le_self (c.amount * m.activation_lp) m.activation_contributed in
      let split = add-mul share c.late_lp m.activation_contributed in ground arith

  total_scaled :
      (cs : List (Contribution Address)) (market : Market Address)
      → total (λ c. contributor_lp c market) cs * market.activation_contributed
        ≤ total (λ c. c.amount) cs * market.activation_lp
          + total (λ c. c.late_lp) cs * market.activation_contributed
  total_scaled [] m = omega arith
  total_scaled (c ∷ cs) m =
      let n = m.activation_contributed in
      omega (
        arith,
        contributor_lp_scaled c m,
        total_scaled cs m,
        add-mul (contributor_lp c m) (total (λ c. contributor_lp c m) cs) n,
        add-mul c.amount (total (λ c. c.amount) cs) m.activation_lp,
        add-mul c.late_lp (total (λ c. c.late_lp) cs) n,
      )

  -- Where the contributions add up to no more than was contributed at activation, the LP of all the
  -- contributors together is no more than the LP of activation and what was added later.
  pub total-contributor_lp :
      (contributions : List (Contribution Address)) (market : Market Address)
      → 0 < market.activation_contributed
      → total (λ c. c.amount) contributions ≤ market.activation_contributed
      → total (λ c. contributor_lp c market) contributions
        ≤ market.activation_lp + total (λ c. c.late_lp) contributions
  total-contributor_lp cs m pos h =
      let n = m.activation_contributed in
      let late = total (λ c. c.late_lp) cs in
      let capped = mul-le-mul_right m.activation_lp h in
      le_of_mul-le-mul_right
        (omega (arith, total_scaled cs m, capped, add-mul m.activation_lp late n)) pos
