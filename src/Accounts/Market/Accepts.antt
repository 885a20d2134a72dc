-- ===== src/Accounts/Market/Accepts.antt =====
-- The size and the tag are all that the decoder asks for.
use kassandra.Base.{ℕ, ◌≡◌, arith, List, length, get_elem?, ok, some, ◌↔◌}
use kassandra.Platform.{Platform}
use kassandra.Accounts.Common.{AccountType, assert_account, market_size}
use kassandra.Accounts.Total.{
  Succeeds, >>=-Succeeds, ok-Succeeds, read_pubkey-Succeeds, read_u64_le-Succeeds,
  read_i64_le-Succeeds, read_u8-Succeeds, read_bool-Succeeds, assert_account_iff,
  bind-assert_account, tag_of,
}
use kassandra.Accounts.Market.{decode_market}

module _ (p : Platform) (raw : List ℕ) where
  decode_market-Succeeds :
      assert_account raw AccountType.market market_size ≡ ok tt
      → length raw ≡ 416
      → Succeeds (decode_market p raw)
  unfolding decode_market
  decode_market-Succeeds checked size =
      >>=-Succeeds (tt, checked)
        λ _. >>=-Succeeds (read_pubkey-Succeeds p raw 8 (omega arith)) λ _.
          >>=-Succeeds (read_pubkey-Succeeds p raw 40 (omega arith)) λ _.
            >>=-Succeeds (read_pubkey-Succeeds p raw 72 (omega arith)) λ _.
              >>=-Succeeds (read_pubkey-Succeeds p raw 104 (omega arith)) λ _.
                >>=-Succeeds (read_pubkey-Succeeds p raw 136 (omega arith)) λ _.
                  >>=-Succeeds (read_pubkey-Succeeds p raw 168 (omega arith)) λ _.
                    >>=-Succeeds (read_pubkey-Succeeds p raw 200 (omega arith)) λ _.
                      >>=-Succeeds (read_pubkey-Succeeds p raw 232 (omega arith)) λ _.
                        >>=-Succeeds (read_pubkey-Succeeds p raw 264 (omega arith)) λ _.
                          >>=-Succeeds (read_pubkey-Succeeds p raw 296 (omega arith)) λ _.
                            >>=-Succeeds (read_pubkey-Succeeds p raw 328 (omega arith)) λ _.
                              >>=-Succeeds (read_pubkey-Succeeds p raw 360 (omega arith)) λ _.
                                >>=-Succeeds (read_i64_le-Succeeds raw 392 (omega arith)) λ _.
                                  >>=-Succeeds (read_u64_le-Succeeds raw 400 (omega arith)) λ _.
                                    >>=-Succeeds (read_bool-Succeeds raw 408 (omega arith)) λ _.
                                      >>=-Succeeds (read_u8-Succeeds raw 409 (omega arith))
                                        λ _. ok-Succeeds _

  -- The decoder accepts exactly the data of its size under its tag.
  pub decode_market_accepts :
      Succeeds (decode_market p raw)
      ↔ ((length raw ≡ 416) × (get_elem? raw 0 ≡ some (tag_of AccountType.market)))
  unfolding decode_market
  decode_market_accepts = (
    λ s. (assert_account_iff raw AccountType.market 416).0 (bind-assert_account _ _ s),
    λ h. decode_market-Succeeds ((assert_account_iff raw AccountType.market 416).1 h) h.0,
  )
