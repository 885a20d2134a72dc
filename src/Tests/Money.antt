-- ===== src/Tests/Money.antt =====
-- The theorems about amounts and the settle verdict at concrete inputs.
use kassandra.Base.{ℕ, ◌*◌, ◌/◌, ◌≤◌, ◌≡◌, arith, some}
use native.Mathlib.Nat.{mul-div_cancel_left, div-mul-le_self, le-div_iff_mul-le}
use kassandra.App.Amount.{value, to_plain_amount, parse_kass_amount}
use kassandra.App.Amount.RoundTrip.{parse_kass_amount-to_plain_amount}
use kassandra.App.Amm.{Floats, margin_progress, will_disqualify}
use kassandra.App.Amm.Verdict.{Rounding, Shows, will_disqualify-Shows}

parse_kass_amount-to_plain_amount_example :
    parse_kass_amount (to_plain_amount 1500000000) ≡ value 1500000000
parse_kass_amount-to_plain_amount_example =
    parse_kass_amount-to_plain_amount 1500000000 (omega arith)

-- Percents, rounded down.
abbrev percents : Floats
percents = record { Number = ℕ; zero_number = 0; divide = λ a c. (a * 100) / c }

percents-Rounding : Rounding percents
percents-Rounding = record {
  AtMost = λ a b. a ≤ b;
  one_number = 100;
  divide_mono = λ a b c pos l small small'.
      let whole = div-mul-le_self (a * 100) c in
      (le-div_iff_mul-le {x = (a * 100) / c} {y = b * 100} pos).1 (omega (arith, whole, l));
  divide_self = λ a pos small. mul-div_cancel_left 100 pos;
  zero_at_most_one = omega arith;
}

will_disqualify-Shows_example :
    Shows percents-Rounding
      (will_disqualify (some 130) (some 100) 1 4)
      (margin_progress percents (some 130) (some 100) 1 4)
will_disqualify-Shows_example =
    will_disqualify-Shows percents-Rounding 1 4 (omega arith) (omega arith) (omega arith) (some 130)
      (some 100) (omega arith) (omega arith)
