-- ===== src/Markets/Accounts/Common.antt =====
-- sdks/markets/ts/src/accounts/common.ts, and the tags and sizes of constants.ts. The reads are those
-- of the oracle SDK, word for word.
use kassandra.Base.{
  ℕ, List, length, get_elem?, ◌==◌, none, some, Result, err, wrong_size, wrong_tag, guard, ◌>>◌,
}

pub data AccountType : Type 0 where
  uninitialized config market contribution : AccountType

abbrev pub tag_of : AccountType → ℕ
tag_of uninitialized = 0
tag_of config = 1
tag_of market = 2
tag_of contribution = 3

abbrev pub config_size : ℕ
config_size = 120

abbrev pub market_size : ℕ
market_size = 424

abbrev pub contribution_size : ℕ
contribution_size = 96

unfoldable pub assert_account : List ℕ → AccountType → ℕ → Result (Unit {0})
assert_account raw expected size = do
  guard (length raw == size) (wrong_size size (length raw))
  elim (get_elem? raw 0) [
    | none ↦ err (wrong_tag (tag_of expected) 0)
    | some tag ↦ guard (tag == tag_of expected) (wrong_tag (tag_of expected) tag)
  ]
