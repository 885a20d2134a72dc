-- ===== src/App/Split.antt =====
-- `uniformSplit` of app/src/market/data/actions/bulkLiquidity.ts, for a total that is not negative and
-- a whole number of shares.
pub mod Even
use kassandra.Base.{
  ℕ, zero, suc, ◌+◌, ◌-◌, ◌*◌, ◌/◌, ◌≤◌, ◌≡◌, refl, arith, List, [], ◌∷◌, All, length, ltb, ◌==◌,
  if◌then◌else◌,
}

-- The loop, with `left` rounds to go.
unfoldable pub shares_from : ℕ → ℕ → ℕ → List ℕ
shares_from base remainder zero = []
shares_from base remainder (suc left) =
    let extra = if ltb 0 remainder then 1 else 0 in
    (base + extra) ∷ shares_from base (remainder - extra) left

unfoldable pub uniform_split : ℕ → ℕ → List ℕ
uniform_split total zero = []
uniform_split total (suc n) =
    let base = total / suc n in shares_from base (total - base * suc n) (suc n)
