-- ===== src/Accounts/Protocol/Accepts.antt =====
-- The size and the tag are all that the decoder asks for.
use kassandra.Base.{ℕ, ◌≡◌, arith, List, length, get_elem?, ok, some, ◌↔◌}
use kassandra.Platform.{Platform}
use kassandra.Accounts.Common.{AccountType, assert_account, protocol_size}
use kassandra.Accounts.Total.{
  Succeeds, >>=-Succeeds, ok-Succeeds, read_pubkey-Succeeds, read_u64_le-Succeeds,
  read_i64_le-Succeeds, read_u8-Succeeds, read_bool-Succeeds, assert_account_iff,
  bind-assert_account, tag_of,
}
use kassandra.Accounts.Protocol.{decode_protocol}

module _ (p : Platform) (raw : List ℕ) where
  decode_protocol-Succeeds :
      assert_account raw AccountType.protocol protocol_size ≡ ok tt
      → length raw ≡ 392
      → Succeeds (decode_protocol p raw)
  unfolding decode_protocol
  decode_protocol-Succeeds checked size =
      >>=-Succeeds (tt, checked)
        λ _. >>=-Succeeds (read_pubkey-Succeeds p raw 8 (omega arith)) λ _.
          >>=-Succeeds (read_pubkey-Succeeds p raw 40 (omega arith)) λ _.
            >>=-Succeeds (read_pubkey-Succeeds p raw 72 (omega arith)) λ _.
              >>=-Succeeds (read_u64_le-Succeeds raw 104 (omega arith)) λ _.
                >>=-Succeeds (read_i64_le-Succeeds raw 112 (omega arith)) λ _.
                  >>=-Succeeds (read_u8-Succeeds raw 120 (omega arith)) λ _.
                    >>=-Succeeds (read_bool-Succeeds raw 121 (omega arith)) λ _.
                      >>=-Succeeds (read_pubkey-Succeeds p raw 128 (omega arith)) λ _.
                        >>=-Succeeds (read_pubkey-Succeeds p raw 160 (omega arith)) λ _.
                          >>=-Succeeds (read_u64_le-Succeeds raw 192 (omega arith)) λ _.
                            >>=-Succeeds (read_u64_le-Succeeds raw 200 (omega arith)) λ _.
                              >>=-Succeeds (read_u64_le-Succeeds raw 208 (omega arith)) λ _.
                                >>=-Succeeds (read_i64_le-Succeeds raw 216 (omega arith)) λ _.
                                  >>=-Succeeds (read_u64_le-Succeeds raw 224 (omega arith)) λ _.
                                    >>=-Succeeds (read_u64_le-Succeeds raw 232 (omega arith)) λ _.
                                      >>=-Succeeds (read_u64_le-Succeeds raw 240 (omega arith)) λ _.
                                        >>=-Succeeds (read_u64_le-Succeeds raw 248 (omega arith))
                                          λ _.
                                            >>=-Succeeds
                                              (read_u64_le-Succeeds raw 256 (omega arith))
                                              λ _.
                                                >>=-Succeeds
                                                  (read_u64_le-Succeeds raw 264 (omega arith))
                                                  λ _.
                                                    >>=-Succeeds
                                                      (read_u64_le-Succeeds raw 272 (omega arith))
                                                      λ _.
                                                        >>=-Succeeds
                                                          (read_u64_le-Succeeds raw 280
                                                            (omega arith))
                                                          λ _.
                                                            >>=-Succeeds
                                                            (read_i64_le-Succeeds raw 288
                                                            (omega arith))
                                                            λ _.
                                                            >>=-Succeeds
                                                            (read_i64_le-Succeeds raw 296
                                                            (omega arith))
                                                            λ _.
                                                            >>=-Succeeds
                                                            (read_u64_le-Succeeds raw 304
                                                            (omega arith))
                                                            λ _.
                                                            >>=-Succeeds
                                                            (read_u64_le-Succeeds raw 312
                                                            (omega arith))
                                                            λ _.
                                                            >>=-Succeeds
                                                            (read_u64_le-Succeeds raw 320
                                                            (omega arith))
                                                            λ _.
                                                            >>=-Succeeds
                                                            (read_u64_le-Succeeds raw 328
                                                            (omega arith))
                                                            λ _.
                                                            >>=-Succeeds
                                                            (read_u64_le-Succeeds raw 336
                                                            (omega arith))
                                                            λ _.
                                                            >>=-Succeeds
                                                            (read_u64_le-Succeeds raw 344
                                                            (omega arith))
                                                            λ _.
                                                            >>=-Succeeds
                                                            (read_u64_le-Succeeds raw 352
                                                            (omega arith))
                                                            λ _.
                                                            >>=-Succeeds
                                                            (read_u64_le-Succeeds raw 360
                                                            (omega arith))
                                                            λ _.
                                                            >>=-Succeeds
                                                            (read_u64_le-Succeeds raw 368
                                                            (omega arith))
                                                            λ _.
                                                            >>=-Succeeds
                                                            (read_u64_le-Succeeds raw 376
                                                            (omega arith))
                                                            λ _.
                                                            >>=-Succeeds
                                                            (read_u64_le-Succeeds raw 384
                                                            (omega arith))
                                                            λ _. ok-Succeeds _

  -- The decoder accepts exactly the data of its size under its tag.
  pub decode_protocol_accepts :
      Succeeds (decode_protocol p raw)
      ↔ ((length raw ≡ 392) × (get_elem? raw 0 ≡ some (tag_of AccountType.protocol)))
  unfolding decode_protocol
  decode_protocol_accepts = (
    λ s. (assert_account_iff raw AccountType.protocol 392).0 (bind-assert_account _ _ s),
    λ h. decode_protocol-Succeeds ((assert_account_iff raw AccountType.protocol 392).1 h) h.0,
  )
