-- ===== src/Accounts/Proposer/Accepts.antt =====
-- The size and the tag are all that the decoder asks for.
use kassandra.Base.{ℕ, ◌≡◌, arith, List, length, get_elem?, ok, some, ◌↔◌}
use kassandra.Platform.{Platform}
use kassandra.Accounts.Common.{AccountType, assert_account, proposer_size}
use kassandra.Accounts.Total.{
  Succeeds, >>=-Succeeds, ok-Succeeds, read_pubkey-Succeeds, read_u64_le-Succeeds, read_u8-Succeeds,
  read_bool-Succeeds, assert_account_iff, bind-assert_account, tag_of,
}
use kassandra.Accounts.Proposer.{decode_proposer}

module _ (p : Platform) (raw : List ℕ) where
  decode_proposer-Succeeds :
      assert_account raw AccountType.proposer proposer_size ≡ ok tt
      → length raw ≡ 96
      → Succeeds (decode_proposer p raw)
  unfolding decode_proposer
  decode_proposer-Succeeds checked size =
      >>=-Succeeds (tt, checked)
        λ _. >>=-Succeeds (read_pubkey-Succeeds p raw 8 (omega arith)) λ _.
          >>=-Succeeds (read_pubkey-Succeeds p raw 40 (omega arith)) λ _.
            >>=-Succeeds (read_u64_le-Succeeds raw 72 (omega arith)) λ _.
              >>=-Succeeds (read_u8-Succeeds raw 80 (omega arith)) λ _.
                >>=-Succeeds (read_u8-Succeeds raw 81 (omega arith)) λ _.
                  >>=-Succeeds (read_bool-Succeeds raw 82 (omega arith)) λ _.
                    >>=-Succeeds (read_bool-Succeeds raw 83 (omega arith)) λ _.
                      >>=-Succeeds (read_bool-Succeeds raw 84 (omega arith)) λ _.
                        >>=-Succeeds (read_u8-Succeeds raw 85 (omega arith)) λ _.
                          >>=-Succeeds (read_bool-Succeeds raw 86 (omega arith)) λ _.
                            >>=-Succeeds (read_u64_le-Succeeds raw 88 (omega arith))
                              λ _. ok-Succeeds _

  -- The decoder accepts exactly the data of its size under its tag.
  pub decode_proposer_accepts :
      Succeeds (decode_proposer p raw)
      ↔ ((length raw ≡ 96) × (get_elem? raw 0 ≡ some (tag_of AccountType.proposer)))
  unfolding decode_proposer
  decode_proposer_accepts = (
    λ s. (assert_account_iff raw AccountType.proposer 96).0 (bind-assert_account _ _ s),
    λ h. decode_proposer-Succeeds ((assert_account_iff raw AccountType.proposer 96).1 h) h.0,
  )
