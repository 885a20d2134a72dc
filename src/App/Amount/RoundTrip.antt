-- ===== src/App/Amount/RoundTrip.antt =====
-- What `toPlainAmount` prints, `parseKassAmount` reads back: app/src/market/data/amount.ts.
use kassandra.Base.{
  ℕ, ◌+◌, ◌*◌, ◌-◌, ◌^◌, ◌<◌, ◌≤◌, ◌≡◌, refl, sym, ap, ◌∙◌, arith, List, [], ◌∷◌, ◌++◌, false,
  Option, none, some, if◌then◌else◌, length, take, drop, replicate, All, append-nil, length-append,
  length-replicate, length-take, length-drop, take-append-drop,
}
use mathlib.Core.Path.{subst}
use kassandra.Runner.{is_white, skip_white}
use kassandra.App.Amount.{
  kass_decimals, kass_scale, is_empty, show, number_from, pad_start, pad_end, strip_zeros,
  to_plain_amount, trim_end, trim, span_digits, match_amount, value, group_or_empty, scale_amount,
  parse_kass_amount,
}
use kassandra.App.Amount.Decimal.{
  AreDigits, AreDigits-append, AreDigits-split, AreDigits-replicate, number_from-append,
  number_from_start, number_from-zeros, show_lem, strip_zeros_lem, trim_end_same,
  span_digits-append, is_digit-is_white,
}

-- A printed amount: digits in front of the point, and at most nine behind it.
Prints : ℕ → List ℕ → List ℕ → Type 0
Prints n whole frac =
    AreDigits whole
    × AreDigits frac
    × (1 ≤ length whole)
    × (length frac ≤ 9)
    × (number_from 0 whole * kass_scale + number_from 0 (pad_end kass_decimals 48 frac) ≡ n)

abbrev join : List ℕ → List ℕ → List ℕ
join whole frac = if is_empty frac then whole else whole ++ (b'.' ∷ frac)

padded_lem :
    (frac nine : List ℕ) (k : ℕ)
    → frac ++ replicate k 48 ≡ nine
    → length nine ≡ 9
    → (length frac ≤ 9) × (pad_end kass_decimals 48 frac ≡ nine)
padded_lem frac nine k e l =
    let size : length frac + k ≡ 9 =
      omega
        (arith, length-append frac (replicate k 48), length-replicate {A = ℕ} k 48, ap length e) in
    let rest : 9 - length frac ≡ k = omega arith in
    (omega arith, ap (λ r. frac ++ replicate r 48) rest ∙ e)

to_plain_amount-Prints :
    (n : ℕ)
    → (whole : List ℕ) × (frac : List ℕ) × (to_plain_amount n ≡ join whole frac)
      × Prints n whole frac
unfolding to_plain_amount Prints
to_plain_amount-Prints n =
    let s = pad_start 10 48 (show n) in
    let whole = take (length s - 9) s in
    let nine = drop (length s - 9) s in
    let (digits, number) = show_lem n in
    let wide : 10 ≤ length s = omega (
      arith,
      length-append (replicate (10 - length (show n)) 48) (show n),
      length-replicate {A = ℕ} (10 - length (show n)) 48,
    ) in
    let cut = take-append-drop (length s - 9) s in
    let all : AreDigits s =
      AreDigits-append _ (show n) (AreDigits-replicate (10 - length (show n))) digits in
    let (dw, dn) = AreDigits-split whole nine (subst AreDigits (sym cut) all) in
    let (k, e) = strip_zeros_lem nine in
    let ln : length nine ≡ 9 = omega (arith, length-drop (length s - 9) s) in
    let (lf, pad) = padded_lem (strip_zeros nine) nine k e ln in
    let (df, _) =
      AreDigits-split (strip_zeros nine) (replicate k 48) (subst AreDigits (sym e) dn) in
    let total : number_from (number_from 0 whole) nine ≡ n =
      sym (number_from-append 0 whole nine)
      ∙ ap (number_from 0) cut
      ∙ number_from-zeros (10 - length (show n)) (show n)
      ∙ number in
    (
      whole,
      strip_zeros nine,
      refl,
      (
        dw,
        df,
        omega (arith, length-take (length s - 9) s),
        lf,
        omega (
          arith,
          number_from_start (number_from 0 whole) nine,
          ap (λ j. number_from 0 whole * 10 ^ j) ln,
          ap (number_from 0) pad,
          total,
        ),
      ),
    )

AreDigits-All : (s : List ℕ) → AreDigits s → All (λ c. is_white c ≡ false) s
AreDigits-All [] h = tt
AreDigits-All (c ∷ s) (h, hs) = (is_digit-is_white c h, AreDigits-All s hs)

All-append :
    (s t : List ℕ)
    → All (λ c. is_white c ≡ false) s
    → All (λ c. is_white c ≡ false) t
    → All (λ c. is_white c ≡ false) (s ++ t)
All-append [] t h h' = h'
All-append (c ∷ s) t (h, hs) h' = (h, All-append s t hs h')

trim_same : (s : List ℕ) → All (λ c. is_white c ≡ false) s → trim s ≡ s
unfolding trim skip_white
trim_same [] h = unfold trim_end in refl
trim_same (c ∷ s) (h, hs) = ground (arith, trim_end_same (c ∷ s) (h, hs))

match_end : (s whole : List ℕ) → span_digits s ≡ (whole, []) → match_amount s ≡ some (whole, none)
unfolding match_amount
match_end s whole e = ground arith

match_point :
    (s whole frac : List ℕ)
    → span_digits s ≡ (whole, b'.' ∷ frac)
    → span_digits frac ≡ (frac, [])
    → match_amount s ≡ some (whole, some frac)
unfolding match_amount
match_point s whole frac e e' = ground arith

match_amount-join :
    (whole frac : List ℕ)
    → AreDigits whole
    → AreDigits frac
    → (group : Option (List ℕ)) × (match_amount (join whole frac) ≡ some (whole, group))
      × (group_or_empty group ≡ frac)
match_amount-join whole [] dw df =
    let e : span_digits whole ≡ (whole, []) =
      subst (λ t. span_digits t ≡ (whole, [])) (append-nil whole)
        (span_digits-append whole [] dw (unfold span_digits in refl)) in
    (none, match_end whole whole e, refl)
match_amount-join whole (c ∷ cs) dw df =
    let frac = c ∷ cs in
    let e = span_digits-append whole (b'.' ∷ frac) dw (unfold span_digits in refl) in
    let e' : span_digits frac ≡ (frac, []) =
      subst (λ t. span_digits t ≡ (frac, [])) (append-nil frac)
        (span_digits-append frac [] df (unfold span_digits in refl)) in
    (some frac, match_point _ whole frac e e', refl)

scale_amount-Prints :
    (n : ℕ) (whole frac : List ℕ) → 0 < n → Prints n whole frac → scale_amount whole frac ≡ value n
unfolding scale_amount Prints
scale_amount-Prints n [] frac pos (dw, df, l, l', e) = absurd (omega arith)
scale_amount-Prints n (c ∷ cs) frac pos (dw, df, l, l', e) = ground (arith, e)

join-All :
    (whole frac : List ℕ)
    → AreDigits whole
    → AreDigits frac
    → All (λ c. is_white c ≡ false) (join whole frac)
join-All whole [] dw df = AreDigits-All whole dw
join-All whole (c ∷ cs) dw df =
    All-append whole (b'.' ∷ c ∷ cs) (AreDigits-All whole dw)
      (unfold is_white in refl, AreDigits-All (c ∷ cs) df)

join_filled : (whole frac : List ℕ) → 1 ≤ length whole → is_empty (join whole frac) ≡ false
join_filled [] frac l = absurd (omega arith)
join_filled (c ∷ cs) [] l = refl
join_filled (c ∷ cs) (d ∷ ds) l = refl

parse_kass_amount-join :
    (whole frac : List ℕ)
    → AreDigits whole
    → AreDigits frac
    → 1 ≤ length whole
    → parse_kass_amount (join whole frac) ≡ scale_amount whole frac
unfolding parse_kass_amount
parse_kass_amount-join whole frac dw df l =
    let same = trim_same (join whole frac) (join-All whole frac dw df) in
    let filled = join_filled whole frac l in
    let (group, m, e) = match_amount-join whole frac dw df in rw (same, filled, m, e) refl

-- The amount that a form fills in for a balance above zero is read back as that very balance.
pub parse_kass_amount-to_plain_amount :
    (base : ℕ) → 0 < base → parse_kass_amount (to_plain_amount base) ≡ value base
unfolding Prints
parse_kass_amount-to_plain_amount base pos =
    let (whole, frac, e, prints) = to_plain_amount-Prints base in
    let (dw, df, l, _, _) = prints in
    ap parse_kass_amount e
    ∙ parse_kass_amount-join whole frac dw df l
    ∙ scale_amount-Prints base whole frac pos prints
