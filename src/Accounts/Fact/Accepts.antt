-- ===== src/Accounts/Fact/Accepts.antt =====
-- The size and the tag are all that the decoder asks for.
use kassandra.Base.{ℕ, ◌≡◌, arith, List, length, get_elem?, ok, some, ◌↔◌}
use kassandra.Platform.{Platform}
use kassandra.Accounts.Common.{AccountType, assert_account, fact_size}
use kassandra.Accounts.Total.{
  Succeeds, >>=-Succeeds, ok-Succeeds, read_pubkey-Succeeds, read_u64_le-Succeeds,
  read_u16_le-Succeeds, read_u8-Succeeds, read_bool-Succeeds, assert_account_iff,
  bind-assert_account, tag_of,
}
use kassandra.Accounts.Fact.{decode_fact}

module _ (p : Platform) (raw : List ℕ) where
  decode_fact-Succeeds :
      assert_account raw AccountType.fact fact_size ≡ ok tt
      → length raw ≡ 336
      → Succeeds (decode_fact p raw)
  unfolding decode_fact
  decode_fact-Succeeds checked size =
      >>=-Succeeds (tt, checked)
        λ _. >>=-Succeeds (read_u16_le-Succeeds raw 128 (omega arith)) λ _.
          >>=-Succeeds (read_pubkey-Succeeds p raw 8 (omega arith)) λ _.
            >>=-Succeeds (read_pubkey-Succeeds p raw 40 (omega arith)) λ _.
              >>=-Succeeds (read_u64_le-Succeeds raw 104 (omega arith)) λ _.
                >>=-Succeeds (read_u64_le-Succeeds raw 112 (omega arith)) λ _.
                  >>=-Succeeds (read_u64_le-Succeeds raw 120 (omega arith)) λ _.
                    >>=-Succeeds (read_bool-Succeeds raw 130 (omega arith)) λ _.
                      >>=-Succeeds (read_bool-Succeeds raw 131 (omega arith)) λ _.
                        >>=-Succeeds (read_bool-Succeeds raw 132 (omega arith)) λ _.
                          >>=-Succeeds (read_u8-Succeeds raw 133 (omega arith)) λ _. ok-Succeeds _

  -- The decoder accepts exactly the data of its size under its tag.
  pub decode_fact_accepts :
      Succeeds (decode_fact p raw)
      ↔ ((length raw ≡ 336) × (get_elem? raw 0 ≡ some (tag_of AccountType.fact)))
  unfolding decode_fact
  decode_fact_accepts = (
    λ s. (assert_account_iff raw AccountType.fact 336).0 (bind-assert_account _ _ s),
    λ h. decode_fact-Succeeds ((assert_account_iff raw AccountType.fact 336).1 h) h.0,
  )
