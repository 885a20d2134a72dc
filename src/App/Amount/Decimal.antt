-- ===== src/App/Amount/Decimal.antt =====
-- Decimal numerals of app/src/market/data/amount.ts: values, padding and trailing zeros.
use kassandra.Base.{
  ℕ, suc, zero, ◌+◌, ◌*◌, ◌-◌, ◌/◌, ◌%◌, ◌^◌, ◌<◌, ◌≡◌, refl, sym, ap, ◌∙◌, arith, List, [], ◌∷◌,
  ◌++◌, true, false, ◌&&◌, ltb, ◌==◌, length, replicate, All, Bool-cases, inl, inr,
}
use mathlib.Core.Path.{subst}
use native.Mathlib.Nat.{add-mul, mul_assoc, pow-succ', zero-mul}
use kassandra.App.Amount.{
  is_digit, is_empty, show_from, show, number_from, strip_zeros, trim_end, span_digits,
}
use kassandra.Runner.{is_white}

abbrev pub AreDigits : List ℕ → Type 0
AreDigits s = All (λ c. is_digit c ≡ true) s

pub AreDigits-append : (s t : List ℕ) → AreDigits s → AreDigits t → AreDigits (s ++ t)
AreDigits-append [] t h h' = h'
AreDigits-append (c ∷ s) t (h, hs) h' = (h, AreDigits-append s t hs h')

pub number_from-append :
    (n : ℕ) (s t : List ℕ) → number_from n (s ++ t) ≡ number_from (number_from n s) t
number_from-append n [] t = refl
number_from-append n (c ∷ s) t = number_from-append (n * 10 + (c - 48)) s t

pub number_from_start : (n : ℕ) (s : List ℕ) → number_from n s ≡ n * 10 ^ length s + number_from 0 s
number_from_start n [] = omega arith
number_from_start n (c ∷ s) =
    let a = number_from_start (n * 10 + (c - 48)) s in
    let b = number_from_start (0 + (c - 48)) s in
    let e = pow-succ' 10 (length s) in
    omega (
      arith,
      a,
      b,
      add-mul (n * 10) (c - 48) (10 ^ length s),
      mul_assoc n 10 (10 ^ length s),
      ap (λ q. n * q) e,
      add-mul 0 (c - 48) (10 ^ length s),
      zero-mul (10 ^ length s),
    )

show_small :
    (fuel n : ℕ) (acc : List ℕ) → ltb n 10 ≡ true → show_from (suc fuel) n acc ≡ (48 + n) ∷ acc
unfolding show_from
show_small fuel n acc h = ground arith

show_large :
    (fuel n : ℕ) (acc : List ℕ)
    → ltb n 10 ≡ false
    → show_from (suc fuel) n acc ≡ show_from fuel (n / 10) ((48 + n % 10) ∷ acc)
unfolding show_from
show_large fuel n acc h = ground arith

show_from_lem :
    (fuel n : ℕ) (acc : List ℕ)
    → n < fuel
    → AreDigits acc
    → AreDigits (show_from fuel n acc) × (number_from 0 (show_from fuel n acc) ≡ number_from n acc)
unfolding show_from
show_from_lem zero n acc l h = absurd (omega arith)
show_from_lem (suc fuel) n acc l h = elim (Bool-cases (ltb n 10)) [
  | inl small ↦
      subst (λ r. AreDigits r × (number_from 0 r ≡ number_from n acc))
        (sym (show_small fuel n acc small))
        ((ground arith, h), ap (λ k. number_from k acc) (omega arith))
  | inr large ↦
      let digit : is_digit (48 + n % 10) ≡ true = ground arith in
      let (a, b) = show_from_lem fuel (n / 10) ((48 + n % 10) ∷ acc) (ground arith) (digit, h) in
      subst (λ r. AreDigits r × (number_from 0 r ≡ number_from n acc))
        (sym (show_large fuel n acc large)) (a, b ∙ ap (λ k. number_from k acc) (omega arith))
]

pub show_lem : (n : ℕ) → AreDigits (show n) × (number_from 0 (show n) ≡ n)
unfolding show
show_lem n = show_from_lem (suc n) n [] (omega arith) tt

pub is_empty_inv : (s : List ℕ) → is_empty s ≡ true → s ≡ []
is_empty_inv [] h = refl
is_empty_inv (c ∷ s) h = cc

pub strip_zeros_lem : (s : List ℕ) → (k : ℕ) × (strip_zeros s ++ replicate k 48 ≡ s)
unfolding strip_zeros
strip_zeros_lem [] = (0, refl)
strip_zeros_lem (c ∷ s) =
    let (k, e) = strip_zeros_lem s in
    elim (Bool-cases ((c == 48) && is_empty (strip_zeros s))) [
      | inl t ↦ (suc k, ground (arith, is_empty_inv (strip_zeros s)))
      | inr f ↦ (k, ground arith)
    ]

pub trim_end_same : (s : List ℕ) → All (λ c. is_white c ≡ false) s → trim_end s ≡ s
unfolding trim_end
trim_end_same [] h = refl
trim_end_same (c ∷ s) (h, hs) = ground (arith, trim_end_same s hs)

pub span_digits-append :
    (s t : List ℕ) → AreDigits s → span_digits t ≡ ([], t) → span_digits (s ++ t) ≡ (s, t)
unfolding span_digits
span_digits-append [] t h e = e
span_digits-append (c ∷ s) t (h, hs) e = ground (arith, span_digits-append s t hs e)

pub is_digit-is_white : (c : ℕ) → is_digit c ≡ true → is_white c ≡ false
unfolding is_white
is_digit-is_white c h = ground arith

pub AreDigits-split : (s t : List ℕ) → AreDigits (s ++ t) → AreDigits s × AreDigits t
AreDigits-split [] t h = (tt, h)
AreDigits-split (c ∷ s) t (h, hs) = let (a, b) = AreDigits-split s t hs in ((h, a), b)

pub AreDigits-replicate : (k : ℕ) → AreDigits (replicate k 48)
AreDigits-replicate zero = tt
AreDigits-replicate (suc k) = (refl, AreDigits-replicate k)

pub number_from-zeros : (k : ℕ) (s : List ℕ) → number_from 0 (replicate k 48 ++ s) ≡ number_from 0 s
number_from-zeros zero s = refl
number_from-zeros (suc k) s = number_from-zeros k s
