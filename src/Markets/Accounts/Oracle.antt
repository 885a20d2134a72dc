-- ===== src/Markets/Accounts/Oracle.antt =====
-- sdks/markets/ts/src/accounts/oracle.ts: the three bytes that the market program reads of an oracle.
use kassandra.Base.{
  ℕ, List, length, ltb, Bool, ◌||◌, ◌==◌, if◌then◌else◌, Option, none, some, Result, ok,
  oracle_too_short, guard, ◌>>=◌, ◌>>◌,
}
use kassandra.Accounts.Common.{read_u8}

abbrev pub options_count_offset : ℕ
options_count_offset = 160

abbrev pub phase_offset : ℕ
phase_offset = 161

abbrev pub resolved_option_offset : ℕ
resolved_option_offset = 197

-- The phase is the byte: `readU8(…) as Phase` checks nothing.
pub record MarketOracle : Type 0 where
  pub options_count : ℕ
  pub phase : ℕ
  pub resolved_option : ℕ

unfoldable pub decode_market_oracle : List ℕ → Result MarketOracle
decode_market_oracle raw = do
  guard (ltb resolved_option_offset (length raw)) (oracle_too_short (length raw))
  options_count ← read_u8 raw options_count_offset
  phase ← read_u8 raw phase_offset
  resolved_option ← read_u8 raw resolved_option_offset
  ok (record { options_count = options_count; phase = phase; resolved_option = resolved_option })

abbrev pub phase_resolved : ℕ
phase_resolved = 7

abbrev pub phase_invalid_deadend : ℕ
phase_invalid_deadend = 8

unfoldable pub is_terminal : ℕ → Bool
is_terminal phase = phase == phase_resolved || phase == phase_invalid_deadend

unfoldable pub resolved_option_or_null : MarketOracle → Option ℕ
resolved_option_or_null oracle =
    if oracle.phase == phase_resolved then some oracle.resolved_option else none
