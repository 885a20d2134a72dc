-- ===== src/Accounts/Layout.antt =====
-- How a `#[repr(C)]` account lies in memory: its fields one after the other, each of a known width.
-- A read at the sum of the widths before a field gives that field.
use kassandra.Base.{
  ℕ, zero, suc, ◌+◌, ◌^◌, ◌%◌, ◌<◌, ◌≤◌, ◌≡◌, refl, sym, ap, ◌∙◌, arith, Bool, true, false, List,
  [], ◌∷◌, ◌++◌, length, get_elem?, take, drop, concat, some, ok, le→leb, if◌then◌else◌,
  length-append, take-append, drop-append_more, replicate,
}
use kassandra.Base.Int.{ℤ, IsI64, wrap, wrap-lt, signed64-wrap}
use kassandra.Platform.{Platform}
use kassandra.Bytes.{le, u8, u16_le, u64_le, i64_le}
use kassandra.Bytes.RoundTrip.{length-le, of_le-le}
use kassandra.Accounts.Common.{
  slice, get_uint, read_u8, read_u16_le, read_u64_le, read_i64_le, read_bool, read_bytes,
  read_pubkey, assert_account, AccountType, tag_of,
}

-- The bytes in front of field `i`.
abbrev pub offset_of : List (List ℕ) → ℕ → ℕ
offset_of [] i = 0
offset_of (c ∷ cs) zero = 0
offset_of (c ∷ cs) (suc i) = length c + offset_of cs i

pub slice-field :
    (cs : List (List ℕ)) (i : ℕ) {c : List ℕ} {off n : ℕ}
    → get_elem? cs i ≡ some c
    → offset_of cs i ≡ off
    → length c ≡ n
    → slice (concat cs) off n ≡ c
unfolding slice
slice-field [] i h o l = cc
slice-field (d ∷ cs) zero {c} {off} {n} h o l =
    let same : d ≡ c = cc in
    ap (λ k. take n (drop k (d ++ concat cs))) (sym o)
    ∙ take-append d (concat cs) (ap length same ∙ l)
    ∙ same
slice-field (d ∷ cs) (suc i) {c} {off} {n} h o l =
    ap (take n) (drop-append_more d (concat cs) (offset_of cs i) o) ∙ slice-field cs i h refl l

pub offset_of-le :
    (cs : List (List ℕ)) (i : ℕ) (c : List ℕ)
    → get_elem? cs i ≡ some c
    → offset_of cs i + length c ≤ length (concat cs)
offset_of-le [] i c h = cc
offset_of-le (d ∷ cs) zero c h =
    let same : d ≡ c = cc in omega (arith, length-append d (concat cs), ap length same)
offset_of-le (d ∷ cs) (suc i) c h =
    omega (arith, length-append d (concat cs), offset_of-le cs i c h)

-- One lemma for each kind of field, for data that the chunks `cs` make up.
module _ {raw : List ℕ} (cs : List (List ℕ)) (laid : raw ≡ concat cs) (i : ℕ) {off : ℕ} where
  get_uint-field :
      (n v : ℕ)
      → get_elem? cs i ≡ some (le n v)
      → offset_of cs i ≡ off
      → v < 256 ^ n
      → get_uint n raw off ≡ ok v
  unfolding get_uint
  get_uint-field n v h o lt =
      let fits : off + n ≤ length (concat cs) =
        omega (arith, offset_of-le cs i (le n v) h, length-le n v) in
      rw (laid, le→leb _ _ fits, slice-field cs i h o (length-le n v), of_le-le n v lt)

  pub read_u8-field :
      (v : ℕ)
      → get_elem? cs i ≡ some (u8 v)
      → offset_of cs i ≡ off
      → v < 256
      → read_u8 raw off ≡ ok v
  unfolding read_u8 u8 le
  read_u8-field v h o lt = get_uint-field 1 v h o lt

  pub read_bool-field :
      (b : Bool)
      → get_elem? cs i ≡ some (u8 (if b then 1 else 0))
      → offset_of cs i ≡ off
      → read_bool raw off ≡ ok b
  unfolding read_bool u8 le
  read_bool-field true h o = rw (get_uint-field 1 1 h o (omega arith))
  read_bool-field false h o = rw (get_uint-field 1 0 h o (omega arith))

  pub read_u16_le-field :
      (v : ℕ)
      → get_elem? cs i ≡ some (u16_le v)
      → offset_of cs i ≡ off
      → v < 2 ^ 16
      → read_u16_le raw off ≡ ok v
  unfolding read_u16_le u16_le
  read_u16_le-field v h o lt = get_uint-field 2 v h o lt

  pub read_u64_le-field :
      (v : ℕ)
      → get_elem? cs i ≡ some (u64_le v)
      → offset_of cs i ≡ off
      → v < 2 ^ 64
      → read_u64_le raw off ≡ ok v
  unfolding read_u64_le u64_le
  read_u64_le-field v h o lt = get_uint-field 8 v h o lt

  pub read_i64_le-field :
      (v : ℤ)
      → get_elem? cs i ≡ some (i64_le v)
      → offset_of cs i ≡ off
      → IsI64 v
      → read_i64_le raw off ≡ ok v
  unfolding read_i64_le i64_le
  read_i64_le-field v h o fits =
      rw (get_uint-field 8 (wrap (2 ^ 64) v) h o (wrap-lt v)) (ap ok (signed64-wrap v fits))

  pub read_bytes-field :
      (bs : List ℕ) {n : ℕ}
      → get_elem? cs i ≡ some bs
      → offset_of cs i ≡ off
      → length bs ≡ n
      → read_bytes raw off n ≡ bs
  unfolding read_bytes
  read_bytes-field bs {n} h o l = ap (λ r. slice r off n) laid ∙ slice-field cs i h o l

  pub read_pubkey-field :
      (p : Platform) (a : p.Address)
      → get_elem? cs i ≡ some (p.to_bytes a)
      → offset_of cs i ≡ off
      → read_pubkey p raw off ≡ ok a
  unfolding read_pubkey
  read_pubkey-field p a h o =
      ap (λ r. p.address_of_bytes (slice r off 32)) laid
      ∙ ap p.address_of_bytes (slice-field cs i h o (p.length-to_bytes a))
      ∙ p.of_bytes-to_bytes a

-- The 8-byte header: the tag, and seven bytes of padding.
abbrev pub header : AccountType → List ℕ
header t = u8 (tag_of t) ++ replicate 7 0

pub tag_byte : (t : AccountType) → tag_of t % 256 ≡ tag_of t
tag_byte AccountType.uninitialized = refl
tag_byte _ = refl

-- Chunks of the right total size under the right header pass `assertAccount`.
pub assert_account-header :
    (t : AccountType) {raw : List ℕ} (cs : List (List ℕ)) (size : ℕ)
    → raw ≡ concat (header t ∷ cs)
    → length (concat (header t ∷ cs)) ≡ size
    → assert_account raw t size ≡ ok tt
unfolding assert_account u8
assert_account-header t cs size laid h = rw laid (ground (arith, tag_byte t))

-- The total size, by the widths.
abbrev pub sizes : List (List ℕ) → ℕ
sizes [] = 0
sizes (c ∷ cs) = length c + sizes cs

pub length-concat : (cs : List (List ℕ)) → length (concat cs) ≡ sizes cs
length-concat [] = refl
length-concat (c ∷ cs) = length-append c (concat cs) ∙ ap (λ n. length c + n) (length-concat cs)
