-- ===== src/Accounts/FactVote/Accepts.antt =====
-- The size and the tag are all that the decoder asks for.
use kassandra.Base.{ℕ, ◌≡◌, arith, List, length, get_elem?, ok, some, ◌↔◌}
use kassandra.Platform.{Platform}
use kassandra.Accounts.Common.{AccountType, assert_account, fact_vote_size}
use kassandra.Accounts.Total.{
  Succeeds, >>=-Succeeds, ok-Succeeds, read_pubkey-Succeeds, read_u64_le-Succeeds, read_u8-Succeeds,
  assert_account_iff, bind-assert_account, tag_of,
}
use kassandra.Accounts.FactVote.{decode_fact_vote}

module _ (p : Platform) (raw : List ℕ) where
  decode_fact_vote-Succeeds :
      assert_account raw AccountType.fact_vote fact_vote_size ≡ ok tt
      → length raw ≡ 88
      → Succeeds (decode_fact_vote p raw)
  unfolding decode_fact_vote
  decode_fact_vote-Succeeds checked size =
      >>=-Succeeds (tt, checked)
        λ _. >>=-Succeeds (read_u8-Succeeds raw 80 (omega arith)) λ _.
          >>=-Succeeds (read_pubkey-Succeeds p raw 8 (omega arith)) λ _.
            >>=-Succeeds (read_pubkey-Succeeds p raw 40 (omega arith)) λ _.
              >>=-Succeeds (read_u64_le-Succeeds raw 72 (omega arith))
                λ _. >>=-Succeeds (read_u8-Succeeds raw 81 (omega arith)) λ _. ok-Succeeds _

  -- The decoder accepts exactly the data of its size under its tag.
  pub decode_fact_vote_accepts :
      Succeeds (decode_fact_vote p raw)
      ↔ ((length raw ≡ 88) × (get_elem? raw 0 ≡ some (tag_of AccountType.fact_vote)))
  unfolding decode_fact_vote
  decode_fact_vote_accepts = (
    λ s. (assert_account_iff raw AccountType.fact_vote 88).0 (bind-assert_account _ _ s),
    λ h. decode_fact_vote-Succeeds ((assert_account_iff raw AccountType.fact_vote 88).1 h) h.0,
  )
