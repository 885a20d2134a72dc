-- ===== src/Base/Int.antt =====
-- Signed integers over the native numbers, as `bigint` fields of type i64 need them.
use kassandra.Base.{ℕ, ◌-◌, ◌%◌, ◌^◌, ◌<◌, ◌≡◌, arith, ltb, Bool, true, false, if◌then◌else◌}

-- `negsuc n` is -(n + 1).
pub data ℤ : Type 0 where
  pos : ℕ → ℤ
  negsuc : ℕ → ℤ

-- The two's complement bit pattern of an integer, in a word with `m` values.
abbrev pub wrap : ℕ → ℤ → ℕ
wrap m (pos n) = n % m
wrap m (negsuc n) = m - 1 - n % m

-- The integer that a 64-bit pattern stands for.
abbrev pub signed64 : ℕ → ℤ
signed64 v = if ltb v (2 ^ 63) then pos v else negsuc (2 ^ 64 - 1 - v)

-- The integers of an `i64`.
abbrev pub IsI64 : ℤ → Type 0
IsI64 (pos n) = n < 2 ^ 63
IsI64 (negsuc n) = n < 2 ^ 63

pub wrap-lt : (z : ℤ) → wrap (2 ^ 64) z < 2 ^ 64
wrap-lt (pos n) = omega arith
wrap-lt (negsuc n) = omega arith

pub signed64-wrap : (z : ℤ) → IsI64 z → signed64 (wrap (2 ^ 64) z) ≡ z
signed64-wrap (pos n) h = ground arith
signed64-wrap (negsuc n) h = ground arith

-- `<` on integers.
abbrev pub ltz : ℤ → ℤ → Bool
ltz (pos m) (pos n) = ltb m n
ltz (pos m) (negsuc n) = false
ltz (negsuc m) (pos n) = true
ltz (negsuc m) (negsuc n) = ltb n m
