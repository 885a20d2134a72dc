-- ===== src/App/Amount.antt =====
-- app/src/market/data/amount.ts, and `toPlainAmount` of
-- app/src/components/markets/actions/TradePanel.tsx, on character codes.
pub mod Decimal
pub mod RoundTrip
use kassandra.Base.{
  ℕ, suc, zero, ◌+◌, ◌*◌, ◌-◌, ◌/◌, ◌%◌, ◌^◌, List, [], ◌∷◌, ◌++◌, Bool, true, false, ◌&&◌, Option,
  none, some, ltb, leb, ◌==◌, if◌then◌else◌, length, take, drop, replicate,
}
use kassandra.Runner.{is_white, skip_white}

abbrev pub kass_decimals : ℕ
kass_decimals = 9

abbrev pub kass_scale : ℕ
kass_scale = 10 ^ kass_decimals

-- `\d`.
abbrev pub is_digit : ℕ → Bool
is_digit c = leb 48 c && leb c 57

abbrev pub is_empty : List ℕ → Bool
is_empty [] = true
is_empty (c ∷ cs) = false

-- `toString()` of a natural number: `acc` is what stands behind the digits of `n`.
unfoldable pub show_from : ℕ → ℕ → List ℕ → List ℕ
show_from zero n acc = acc
show_from (suc fuel) n acc = elim (ltb n 10) [
  | true ↦ (48 + n) ∷ acc
  | false ↦ show_from fuel (n / 10) ((48 + n % 10) ∷ acc)
]

unfoldable pub show : ℕ → List ℕ
show n = show_from (suc n) n []

-- `BigInt(s)` of a string of digits, behind a number that is already read.
abbrev pub number_from : ℕ → List ℕ → ℕ
number_from n [] = n
number_from n (c ∷ cs) = number_from (n * 10 + (c - 48)) cs

-- `padStart`, `padEnd`, and `replace(/0+$/, "")`.
abbrev pub pad_start : ℕ → ℕ → List ℕ → List ℕ
pad_start width c s = replicate (width - length s) c ++ s

abbrev pub pad_end : ℕ → ℕ → List ℕ → List ℕ
pad_end width c s = s ++ replicate (width - length s) c

unfoldable pub strip_zeros : List ℕ → List ℕ
strip_zeros [] = []
strip_zeros (c ∷ cs) =
    let rest = strip_zeros cs in if (c == 48) && is_empty rest then [] else c ∷ rest

unfoldable pub to_plain_amount : ℕ → List ℕ
to_plain_amount base =
    let s = pad_start (kass_decimals + 1) 48 (show base) in
    let whole = take (length s - kass_decimals) s in
    let frac = strip_zeros (drop (length s - kass_decimals) s) in
    if is_empty frac then whole else whole ++ (b'.' ∷ frac)

-- `trim()`.
unfoldable pub trim_end : List ℕ → List ℕ
trim_end [] = []
trim_end (c ∷ cs) = let rest = trim_end cs in if is_white c && is_empty rest then [] else c ∷ rest

unfoldable pub trim : List ℕ → List ℕ
trim s = trim_end (skip_white s)

-- The longest prefix of digits, and the rest.
unfoldable pub span_digits : List ℕ → List ℕ × List ℕ
span_digits [] = ([], [])
span_digits (c ∷ cs) =
    let (ds, rest) = span_digits cs in if is_digit c then (c ∷ ds, rest) else ([], c ∷ cs)

-- `/^(\d*)(?:\.(\d*))?$/`: the two groups, the second one perhaps undefined.
unfoldable pub match_amount : List ℕ → Option (List ℕ × Option (List ℕ))
match_amount s =
    let (whole, rest) = span_digits s in
    elim rest [
      | [] ↦ some (whole, none)
      | c ∷ cs ↦
          let (frac, tail) = span_digits cs in
          if (c == b'.') && is_empty tail then some (whole, some frac) else none
    ]

pub data AmountError : Type 0 where
  no_amount not_a_number too_precise not_positive : AmountError

pub data Parsed : Type 0 where
  value : ℕ → Parsed
  error : AmountError → Parsed

abbrev pub group_or_empty : Option (List ℕ) → List ℕ
group_or_empty none = []
group_or_empty (some s) = s

-- Behind the match.
unfoldable pub scale_amount : List ℕ → List ℕ → Parsed
scale_amount whole frac =
    if is_empty whole && is_empty frac
    then error not_a_number
    else if ltb kass_decimals (length frac)
    then error too_precise
    else let v = number_from 0 whole * kass_scale + number_from 0 (pad_end kass_decimals 48 frac) in
      if v == 0 then error not_positive else value v

unfoldable pub parse_kass_amount : List ℕ → Parsed
parse_kass_amount raw =
    let t = trim raw in
    if is_empty t then error no_amount else elim (match_amount t) [
      | none ↦ error not_a_number
      | some (whole, frac) ↦ scale_amount whole (group_or_empty frac)
    ]

-- `balanceGateError`: none where the amount may be sent.
pub data GateError : Type 0 where
  nothing_held exceeds_balance : GateError

unfoldable pub balance_gate_error : Option ℕ → Option ℕ → Option GateError
balance_gate_error amount none = none
balance_gate_error none (some balance) = if balance == 0 then some nothing_held else none
balance_gate_error (some amount) (some balance) =
    if balance == 0
    then some nothing_held
    else if ltb balance amount
    then some exceeds_balance
    else none
