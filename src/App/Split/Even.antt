-- ===== src/App/Split/Even.antt =====
-- The shares are even and lose nothing.
use native.Mathlib.Nat.{div-mul-le_self, lt-div-mul-add, mul-suc}
use kassandra.Base.{
  ℕ, zero, suc, ◌+◌, ◌-◌, ◌*◌, ◌/◌, ◌≤◌, ◌<◌, ◌≡◌, refl, arith, List, [], ◌∷◌, All, length, ltb,
  Bool-cases, inl, inr, if◌then◌else◌,
}
use kassandra.App.Split.{shares_from, uniform_split}

abbrev pub sum : List ℕ → ℕ
sum [] = 0
sum (s ∷ ss) = s + sum ss

length-shares_from : (base r left : ℕ) → length (shares_from base r left) ≡ left
unfolding shares_from
length-shares_from base r zero = refl
length-shares_from base r (suc left) =
    ground (arith, length-shares_from base (r - 1) left, length-shares_from base r left)

sum-shares_from : (base r left : ℕ) → r ≤ left → sum (shares_from base r left) ≡ base * left + r
unfolding shares_from
sum-shares_from base r zero h = omega arith
sum-shares_from base r (suc left) h = elim (Bool-cases (ltb 0 r)) [
  | inl e ↦
      let later = sum-shares_from base (r - 1) left (ground (arith, e)) in
      ground (arith, e, later, mul-suc base left)
  | inr e ↦
      let later = sum-shares_from base (r - 0) left (ground (arith, e)) in
      ground (arith, e, later, mul-suc base left)
]

-- A share is the whole part or one more.
abbrev pub Even : ℕ → ℕ → Type 0
Even base s = (base ≤ s) × (s ≤ base + 1)

shares_from-Even : (base r left : ℕ) → All (Even base) (shares_from base r left)
unfolding shares_from
shares_from-Even base r zero = tt
shares_from-Even base r (suc left) =
    (ground arith, shares_from-Even base (r - (if ltb 0 r then 1 else 0)) left)

-- Where there is at least one share, a total is split into exactly that many shares, which add up to
-- it, and each of which is the quotient or one more.
pub uniform_split_lem :
    (total n : ℕ)
    → 1 ≤ n
    → (length (uniform_split total n) ≡ n)
      × (sum (uniform_split total n) ≡ total)
      × All (Even (total / n)) (uniform_split total n)
unfolding uniform_split
uniform_split_lem total zero h = absurd (omega arith)
uniform_split_lem total (suc n) h =
    let base = total / suc n in
    let r = total - base * suc n in
    let whole : base * suc n ≤ total = div-mul-le_self total (suc n) in
    let rest : total < base * suc n + suc n = lt-div-mul-add {b = suc n} (omega arith) in
    (
      length-shares_from base r (suc n),
      omega (arith, sum-shares_from base r (suc n) (omega (arith, rest)), whole),
      shares_from-Even base r (suc n),
    )
