-- ===== src/Bytes.antt =====
-- sdks/oracles/ts/src/bytes.ts: little-endian byte helpers. A byte array is a list of numbers.
-- The unsigned encoders take the natural numbers, the signed ones the integers.
pub mod RoundTrip
use kassandra.Base.{
  ℕ, zero, suc, ◌+◌, ◌*◌, ◌/◌, ◌%◌, ◌^◌, List, [], ◌∷◌, ◌++◌, length, take, drop, replicate,
}
use kassandra.Base.Int.{ℤ, wrap}

-- The `n` bytes that `DataView.setUintN(0, v, true)` writes: it keeps the low `8 * n` bits.
unfoldable pub le : ℕ → ℕ → List ℕ
le zero v = []
le (suc n) v = (v % 256) ∷ le n (v / 256)

unfoldable pub u8 : ℕ → List ℕ
u8 value = (value % 256) ∷ []

unfoldable pub u16_le : ℕ → List ℕ
u16_le value = le 2 value

unfoldable pub i16_le : ℤ → List ℕ
i16_le value = le 2 (wrap (2 ^ 16) value)

unfoldable pub u32_le : ℕ → List ℕ
u32_le value = le 4 value

unfoldable pub u64_le : ℕ → List ℕ
u64_le value = le 8 value

unfoldable pub i64_le : ℤ → List ℕ
i64_le value = le 8 (wrap (2 ^ 64) value)

-- Two 64-bit writes: the low half, then the rest of the value.
unfoldable pub u128_le : ℕ → List ℕ
u128_le value = le 8 (value % 2 ^ 64) ++ le 8 (value / 2 ^ 64)

-- `parts.reduce((n, p) => n + p.length, 0)`
total_length : ℕ → List (List ℕ) → ℕ
total_length n [] = n
total_length n (p ∷ parts) = total_length (n + length p) parts

-- `out.set(p, off)`, for a chunk that fits.
abbrev set_at : List ℕ → List ℕ → ℕ → List ℕ
set_at out p off = take off out ++ (p ++ drop (off + length p) out)

-- The copying loop over the chunks.
copy_from : List (List ℕ) → ℕ → List ℕ → List ℕ
copy_from [] off out = out
copy_from (p ∷ parts) off out = copy_from parts (off + length p) (set_at out p off)

unfoldable pub concat_bytes : List (List ℕ) → List ℕ
unfolding total_length copy_from
concat_bytes parts = copy_from parts 0 (replicate (total_length 0 parts) 0)
