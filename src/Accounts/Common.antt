-- ===== src/Accounts/Common.antt =====
-- sdks/oracles/ts/src/accounts/common.ts and the account tags and sizes of constants.ts.
use kassandra.Base.{
  ℕ, ◌+◌, ◌*◌, ◌^◌, Bool, not, List, length, get_elem?, take, drop, ◌==◌, leb, if◌then◌else◌, none,
  some, Result, ok, err, range_error, wrong_size, wrong_tag, guard, ◌>>=◌, ◌>>◌,
}
use kassandra.Base.Int.{ℤ, signed64}
use kassandra.Platform.{Platform}
use kassandra.Bytes.RoundTrip.{of_le}

pub data AccountType : Type 0 where
  uninitialized oracle proposer fact fact_vote ai_claim market protocol oracle_meta : AccountType

-- The enum's numbers, which are the tag bytes.
abbrev pub tag_of : AccountType → ℕ
tag_of uninitialized = 0
tag_of oracle = 1
tag_of proposer = 2
tag_of fact = 3
tag_of fact_vote = 4
tag_of ai_claim = 5
tag_of market = 6
tag_of protocol = 7
tag_of oracle_meta = 8

-- `ACCOUNT_SIZES`: the sizes of the fixed-size accounts.
abbrev pub protocol_size : ℕ
protocol_size = 392

abbrev pub oracle_size : ℕ
oracle_size = 368

abbrev pub proposer_size : ℕ
proposer_size = 96

abbrev pub fact_size : ℕ
fact_size = 336

abbrev pub fact_vote_size : ℕ
fact_vote_size = 88

abbrev pub ai_claim_size : ℕ
ai_claim_size = 208

abbrev pub market_size : ℕ
market_size = 416

-- `data.slice(offset, offset + len)`: it stops at the end of the data.
unfoldable pub slice : List ℕ → ℕ → ℕ → List ℕ
slice raw offset len = take len (drop offset raw)

-- A `DataView` read of `n` bytes at `offset`, which throws past the end.
unfoldable pub get_uint : ℕ → List ℕ → ℕ → Result ℕ
get_uint n raw offset =
    if leb (offset + n) (length raw) then ok (of_le (slice raw offset n)) else err range_error

unfoldable pub read_u8 : List ℕ → ℕ → Result ℕ
read_u8 raw offset = get_uint 1 raw offset

unfoldable pub read_u16_le : List ℕ → ℕ → Result ℕ
read_u16_le raw offset = get_uint 2 raw offset

unfoldable pub read_u32_le : List ℕ → ℕ → Result ℕ
read_u32_le raw offset = get_uint 4 raw offset

unfoldable pub read_u64_le : List ℕ → ℕ → Result ℕ
read_u64_le raw offset = get_uint 8 raw offset

unfoldable pub read_i64_le : List ℕ → ℕ → Result ℤ
read_i64_le raw offset = do bits ← get_uint 8 raw offset; ok (signed64 bits)

-- `(hi << 64n) | lo`; `lo` is below 2 ^ 64, so the bits do not meet.
unfoldable pub read_u128_le : List ℕ → ℕ → Result ℕ
read_u128_le raw offset = do
  lo ← get_uint 8 raw offset
  hi ← get_uint 8 raw (offset + 8)
  ok (hi * 2 ^ 64 + lo)

unfoldable pub read_bool : List ℕ → ℕ → Result Bool
read_bool raw offset = do b ← get_uint 1 raw offset; ok (not (b == 0))

unfoldable pub read_bytes : List ℕ → ℕ → ℕ → List ℕ
read_bytes raw offset len = slice raw offset len

unfoldable pub read_pubkey : (p : Platform) → List ℕ → ℕ → Result p.Address
read_pubkey p raw offset = p.address_of_bytes (slice raw offset 32)

-- The size, then the first byte. An empty buffer of size 0 would have the tag `undefined`.
unfoldable pub assert_account : List ℕ → AccountType → ℕ → Result (Unit {0})
assert_account raw expected size = do
  guard (length raw == size) (wrong_size size (length raw))
  elim (get_elem? raw 0) [
    | none ↦ err (wrong_tag (tag_of expected) 0)
    | some tag ↦ guard (tag == tag_of expected) (wrong_tag (tag_of expected) tag)
  ]
