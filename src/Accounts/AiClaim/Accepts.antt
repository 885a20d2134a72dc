-- ===== src/Accounts/AiClaim/Accepts.antt =====
-- The size and the tag are all that the decoder asks for.
use kassandra.Base.{ℕ, ◌≡◌, arith, List, length, get_elem?, ok, some, ◌↔◌}
use kassandra.Platform.{Platform}
use kassandra.Accounts.Common.{AccountType, assert_account, ai_claim_size}
use kassandra.Accounts.Total.{
  Succeeds, >>=-Succeeds, ok-Succeeds, read_pubkey-Succeeds, read_u8-Succeeds, read_bool-Succeeds,
  assert_account_iff, bind-assert_account, tag_of,
}
use kassandra.Accounts.AiClaim.{decode_ai_claim}

module _ (p : Platform) (raw : List ℕ) where
  decode_ai_claim-Succeeds :
      assert_account raw AccountType.ai_claim ai_claim_size ≡ ok tt
      → length raw ≡ 208
      → Succeeds (decode_ai_claim p raw)
  unfolding decode_ai_claim
  decode_ai_claim-Succeeds checked size =
      >>=-Succeeds (tt, checked)
        λ _. >>=-Succeeds (read_pubkey-Succeeds p raw 8 (omega arith)) λ _.
          >>=-Succeeds (read_pubkey-Succeeds p raw 40 (omega arith)) λ _.
            >>=-Succeeds (read_u8-Succeeds raw 168 (omega arith)) λ _.
              >>=-Succeeds (read_bool-Succeeds raw 169 (omega arith)) λ _.
                >>=-Succeeds (read_u8-Succeeds raw 170 (omega arith)) λ _.
                  >>=-Succeeds (read_pubkey-Succeeds p raw 176 (omega arith)) λ _. ok-Succeeds _

  -- The decoder accepts exactly the data of its size under its tag.
  pub decode_ai_claim_accepts :
      Succeeds (decode_ai_claim p raw)
      ↔ ((length raw ≡ 208) × (get_elem? raw 0 ≡ some (tag_of AccountType.ai_claim)))
  unfolding decode_ai_claim
  decode_ai_claim_accepts = (
    λ s. (assert_account_iff raw AccountType.ai_claim 208).0 (bind-assert_account _ _ s),
    λ h. decode_ai_claim-Succeeds ((assert_account_iff raw AccountType.ai_claim 208).1 h) h.0,
  )
