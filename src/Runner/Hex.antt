-- ===== src/Runner/Hex.antt =====
-- `hexToBytes`: it reads back hexadecimal text, and what it lets pass.
use kassandra.Base.{
  ℕ, zero, suc, ◌+◌, ◌-◌, ◌/◌, ◌%◌, ◌<◌, ◌≡◌, ◌≢◌, refl, ap, arith, List, [], ◌∷◌, Bool, true,
  false, ◌&&◌, Option, none, some, ok, length, ltb, ◌==◌, ==_iff, ==_refl, if◌then◌else◌, All, ◌⊎◌,
  inl, inr, ◌++◌, length-append, Bool-cases, ◌||◌,
}
use kassandra.Base.Int.{ℤ, pos, negsuc}
use kassandra.Runner.{
  digit, is_white, skip_white, digits_from, digits, strip_0x, signed_digits, parse_int16, hex_pairs,
  hex_to_bytes,
}

-- A byte as two lower-case hexadecimal digits, and a string of bytes.
abbrev hex_digit : ℕ → ℕ
hex_digit n = if ltb n 10 then b'0' + n else b'a' + n - 10

abbrev pub hex_of : List ℕ → List ℕ
hex_of [] = []
hex_of (b ∷ bs) = hex_digit (b / 16) ∷ hex_digit (b % 16) ∷ hex_of bs

-- A byte is read back from its two digits: checked for each of the 256.
reads_back : ℕ → Bool
unfolding parse_int16
reads_back b = elim (parse_int16 (hex_digit (b / 16) ∷ hex_digit (b % 16) ∷ [])) [
  | none ↦ false
  | some z ↦ elim z [ pos n ↦ n == b | negsuc n ↦ false ]
]

all_below : ℕ → (ℕ → Bool) → Bool
all_below zero f = true
all_below (suc n) f = f n && all_below n f

all_below_sound : (n : ℕ) (f : ℕ → Bool) (b : ℕ) → all_below n f ≡ true → b < n → f b ≡ true
unfolding all_below
all_below_sound zero f b h lt = absurd (omega arith)
all_below_sound (suc n) f b h lt = ground (arith, all_below_sound n f b)

table : all_below 256 reads_back ≡ true
unfolding all_below reads_back
table = refl

parse_int16-hex :
    (b : ℕ) → b < 256 → parse_int16 (hex_digit (b / 16) ∷ hex_digit (b % 16) ∷ []) ≡ some (pos b)
unfolding reads_back
parse_int16-hex b lt = from _ (all_below_sound 256 reads_back b table lt)
  where
    from :
        (r : Option ℤ)
        → elim r [ none ↦ false | some z ↦ elim z [ pos n ↦ n == b | negsuc n ↦ false ] ] ≡ true
        → r ≡ some (pos b)
    from none h = cc
    from (some (pos n)) h = ap (λ k. some (pos k)) ((==_iff n b).0 h)
    from (some (negsuc n)) h = cc

hex_pairs-hex_of : (bs : List ℕ) → All (λ b. b < 256) bs → hex_pairs (hex_of bs) ≡ ok bs
unfolding hex_pairs
hex_pairs-hex_of [] h = refl
hex_pairs-hex_of (b ∷ bs) (lt, h) =
    rw (parse_int16-hex b lt, hex_pairs)
      (rw (hex_pairs-hex_of bs h) (ap (λ d. ok (d ∷ bs)) (omega arith)))

strip_0x-hex_of : (bs : List ℕ) → All (λ b. b < 256) bs → strip_0x (hex_of bs) ≡ hex_of bs
unfolding strip_0x
strip_0x-hex_of [] h = refl
strip_0x-hex_of (b ∷ bs) (lt, h) = ground arith

length-hex_of : (bs : List ℕ) → length (hex_of bs) ≡ length bs + length bs
length-hex_of [] = refl
length-hex_of (b ∷ bs) = omega (arith, length-hex_of bs)

even_hex : (bs : List ℕ) → (length (hex_of bs) % 2 == 0) ≡ true
even_hex bs = ground (arith, length-hex_of bs)

plain_hex : (bs : List ℕ) → All (λ b. b < 256) bs → hex_to_bytes (hex_of bs) (length bs) ≡ ok bs
unfolding hex_to_bytes
plain_hex bs h = rw (strip_0x-hex_of bs h, even_hex bs, hex_pairs-hex_of bs h, ==_refl (length bs))

prefixed_hex :
    (bs : List ℕ)
    → All (λ b. b < 256) bs
    → hex_to_bytes (b'0' ∷ b'x' ∷ hex_of bs) (length bs) ≡ ok bs
unfolding hex_to_bytes strip_0x
prefixed_hex bs h = rw (even_hex bs, hex_pairs-hex_of bs h, ==_refl (length bs))

-- Hexadecimal text of bytes is decoded to these bytes, with and without a `0x` in front.
pub hex_to_bytes-hex_of :
    (bs : List ℕ)
    → All (λ b. b < 256) bs
    → (hex_to_bytes (hex_of bs) (length bs) ≡ ok bs)
      × (hex_to_bytes (b'0' ∷ b'x' ∷ hex_of bs) (length bs) ≡ ok bs)
hex_to_bytes-hex_of bs h = (plain_hex bs h, prefixed_hex bs h)

-- Hexadecimal text of bytes, with or without a `0x` in front.
abbrev pub IsHexOf : List ℕ → List ℕ → Type 0
IsHexOf hex bs = All (λ b. b < 256) bs × ((hex ≡ hex_of bs) ⊎ (hex ≡ b'0' ∷ b'x' ∷ hex_of bs))

pub hex_to_bytes-IsHexOf :
    (hex bs : List ℕ) (n : ℕ) → IsHexOf hex bs → length bs ≡ n → hex_to_bytes hex n ≡ ok bs
hex_to_bytes-IsHexOf hex bs n (small, inl e) size = rw (e, ← size) (plain_hex bs small)
hex_to_bytes-IsHexOf hex bs n (small, inr e) size = rw (e, ← size) (prefixed_hex bs small)

-- A digit is no white space and no sign.
digit_plain :
    (c v : ℕ) → digit c ≡ some v → (is_white c ≡ false) × (c ≢ b'-') × (c ≢ b'+') × (v < 16)
unfolding digit is_white
digit_plain c v h = ground arith

-- The two characters are not the prefix `0x` or `0X`, of which `parseInt` makes no number.
no_prefix :
    (c d : ℕ)
    → ¬ ((c ≡ b'0') × ((d ≡ b'x') ⊎ (d ≡ b'X')))
    → (c == b'0' && (d == b'x' || d == b'X')) ≡ false
no_prefix c d h = elim (Bool-cases (c == b'0' && (d == b'x' || d == b'X'))) [
  | inr f ↦ f
  | inl t ↦ absurd (h (ground (arith, t, ==_iff c b'0', ==_iff d b'x', ==_iff d b'X')))
]

parse_int16_lenient :
    (c d v : ℕ)
    → digit c ≡ some v
    → digit d ≡ none
    → (c == b'0' && (d == b'x' || d == b'X')) ≡ false
    → parse_int16 (c ∷ d ∷ []) ≡ some (pos v)
unfolding parse_int16 skip_white signed_digits digits digits_from strip_0x
parse_int16_lenient c d v hc hd np = ground (arith, digit_plain c v)

hex_pairs-append :
    (bs s out : List ℕ)
    → All (λ b. b < 256) bs
    → hex_pairs s ≡ ok out
    → hex_pairs (hex_of bs ++ s) ≡ ok (bs ++ out)
unfolding hex_pairs
hex_pairs-append [] s out h e = e
hex_pairs-append (b ∷ bs) s out (lt, h) e =
    rw (parse_int16-hex b lt, hex_pairs)
      (rw (hex_pairs-append bs s out h e) (ap (λ d. ok (d ∷ (bs ++ out))) (omega arith)))

module _ (before after : List ℕ) (c d v : ℕ) (small : All (λ b. b < 256) before)
    (small' : All (λ b. b < 256) after) (hc : digit c ≡ some v) (hd : digit d ≡ none)
    (apart : ¬ ((c ≡ b'0') × ((d ≡ b'x') ⊎ (d ≡ b'X')))) where
  here : hex_pairs (c ∷ d ∷ hex_of after) ≡ ok (v ∷ after)
  unfolding hex_pairs
  here =
      let (_, _, _, lt) = digit_plain c v hc in
      rw (parse_int16_lenient c d v hc hd (no_prefix c d apart), hex_pairs)
        (rw (hex_pairs-hex_of after small') (ap (λ k. ok (k ∷ after)) (omega arith)))

  lenient_pairs : hex_pairs (hex_of before ++ (c ∷ d ∷ hex_of after)) ≡ ok (before ++ (v ∷ after))
  lenient_pairs = hex_pairs-append before (c ∷ d ∷ hex_of after) (v ∷ after) small here

  strip_0x_lenient :
      (front : List ℕ)
      → All (λ b. b < 256) front
      → strip_0x (hex_of front ++ (c ∷ d ∷ hex_of after)) ≡ hex_of front ++ (c ∷ d ∷ hex_of after)
  unfolding strip_0x
  strip_0x_lenient [] h = rw (no_prefix c d apart) refl
  strip_0x_lenient (b ∷ bs) (lt, h) = ground arith

  -- In hexadecimal text of bytes, a pair whose first character is a digit and whose second is none, and
  -- that is not `0x` or `0X`, is read as its first digit alone: the text is not refused as invalid.
  pub hex_to_bytes_lenient :
      hex_to_bytes (hex_of before ++ (c ∷ d ∷ hex_of after)) (length before + 1 + length after)
      ≡ ok (before ++ (v ∷ after))
  unfolding hex_to_bytes
  hex_to_bytes_lenient =
      let size = length-append before (v ∷ after) in
      let chars = length-append (hex_of before) (c ∷ d ∷ hex_of after) in
      let even : (length (hex_of before ++ (c ∷ d ∷ hex_of after)) % 2 == 0) ≡ true =
        ground (arith, chars, length-hex_of before, length-hex_of after) in
      let same : (length (before ++ (v ∷ after)) == length before + 1 + length after) ≡ true =
        ground (arith, size) in
      rw (strip_0x_lenient before small, even, lenient_pairs, same)

-- Whatever is decoded has the length that was asked for.
pub length-hex_to_bytes :
    (hex : List ℕ) (n : ℕ) (out : List ℕ) → hex_to_bytes hex n ≡ ok out → length out ≡ n
unfolding hex_to_bytes
length-hex_to_bytes hex n out h = ground arith
