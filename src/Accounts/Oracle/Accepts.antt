-- ===== src/Accounts/Oracle/Accepts.antt =====
-- The size and the tag are all that the decoder asks for.
use kassandra.Base.{ℕ, ◌≡◌, arith, List, length, get_elem?, ok, some, ◌↔◌}
use kassandra.Platform.{Platform}
use kassandra.Accounts.Common.{AccountType, assert_account, oracle_size}
use kassandra.Accounts.Total.{
  Succeeds, >>=-Succeeds, ok-Succeeds, read_pubkey-Succeeds, read_u64_le-Succeeds,
  read_i64_le-Succeeds, read_u16_le-Succeeds, read_u8-Succeeds, assert_account_iff,
  bind-assert_account, tag_of,
}
use kassandra.Accounts.Oracle.{decode_oracle}

module _ (p : Platform) (raw : List ℕ) where
  decode_oracle-Succeeds :
      assert_account raw AccountType.oracle oracle_size ≡ ok tt
      → length raw ≡ 368
      → Succeeds (decode_oracle p raw)
  unfolding decode_oracle
  decode_oracle-Succeeds checked size =
      >>=-Succeeds (tt, checked)
        λ _. >>=-Succeeds (read_u8-Succeeds raw 161 (omega arith)) λ _.
          >>=-Succeeds (read_pubkey-Succeeds p raw 8 (omega arith)) λ _.
            >>=-Succeeds (read_pubkey-Succeeds p raw 40 (omega arith)) λ _.
              >>=-Succeeds (read_pubkey-Succeeds p raw 72 (omega arith)) λ _.
                >>=-Succeeds (read_pubkey-Succeeds p raw 104 (omega arith)) λ _.
                  >>=-Succeeds (read_i64_le-Succeeds raw 136 (omega arith)) λ _.
                    >>=-Succeeds (read_i64_le-Succeeds raw 144 (omega arith)) λ _.
                      >>=-Succeeds (read_i64_le-Succeeds raw 152 (omega arith)) λ _.
                        >>=-Succeeds (read_u8-Succeeds raw 160 (omega arith)) λ _.
                          >>=-Succeeds (read_u16_le-Succeeds raw 162 (omega arith)) λ _.
                            >>=-Succeeds (read_u16_le-Succeeds raw 164 (omega arith)) λ _.
                              >>=-Succeeds (read_u16_le-Succeeds raw 166 (omega arith)) λ _.
                                >>=-Succeeds (read_u64_le-Succeeds raw 168 (omega arith)) λ _.
                                  >>=-Succeeds (read_u64_le-Succeeds raw 176 (omega arith)) λ _.
                                    >>=-Succeeds (read_u64_le-Succeeds raw 184 (omega arith)) λ _.
                                      >>=-Succeeds (read_u16_le-Succeeds raw 192 (omega arith)) λ _.
                                        >>=-Succeeds (read_u16_le-Succeeds raw 194 (omega arith))
                                          λ _.
                                            >>=-Succeeds (read_u8-Succeeds raw 196 (omega arith))
                                              λ _.
                                                >>=-Succeeds
                                                  (read_u8-Succeeds raw 197 (omega arith))
                                                  λ _.
                                                    >>=-Succeeds
                                                      (read_u16_le-Succeeds raw 198 (omega arith))
                                                      λ _.
                                                        >>=-Succeeds
                                                          (read_u64_le-Succeeds raw 200
                                                            (omega arith))
                                                          λ _.
                                                            >>=-Succeeds
                                                            (read_u64_le-Succeeds raw 208
                                                            (omega arith))
                                                            λ _.
                                                            >>=-Succeeds
                                                            (read_u64_le-Succeeds raw 216
                                                            (omega arith))
                                                            λ _.
                                                            >>=-Succeeds
                                                            (read_u64_le-Succeeds raw 224
                                                            (omega arith))
                                                            λ _.
                                                            >>=-Succeeds
                                                            (read_u64_le-Succeeds raw 232
                                                            (omega arith))
                                                            λ _.
                                                            >>=-Succeeds
                                                            (read_u64_le-Succeeds raw 240
                                                            (omega arith))
                                                            λ _.
                                                            >>=-Succeeds
                                                            (read_i64_le-Succeeds raw 248
                                                            (omega arith))
                                                            λ _.
                                                            >>=-Succeeds
                                                            (read_i64_le-Succeeds raw 256
                                                            (omega arith))
                                                            λ _.
                                                            >>=-Succeeds
                                                            (read_u64_le-Succeeds raw 264
                                                            (omega arith))
                                                            λ _.
                                                            >>=-Succeeds
                                                            (read_u64_le-Succeeds raw 272
                                                            (omega arith))
                                                            λ _.
                                                            >>=-Succeeds
                                                            (read_u64_le-Succeeds raw 280
                                                            (omega arith))
                                                            λ _.
                                                            >>=-Succeeds
                                                            (read_u64_le-Succeeds raw 288
                                                            (omega arith))
                                                            λ _.
                                                            >>=-Succeeds
                                                            (read_u64_le-Succeeds raw 296
                                                            (omega arith))
                                                            λ _.
                                                            >>=-Succeeds
                                                            (read_u64_le-Succeeds raw 304
                                                            (omega arith))
                                                            λ _.
                                                            >>=-Succeeds
                                                            (read_u64_le-Succeeds raw 312
                                                            (omega arith))
                                                            λ _.
                                                            >>=-Succeeds
                                                            (read_u64_le-Succeeds raw 320
                                                            (omega arith))
                                                            λ _.
                                                            >>=-Succeeds
                                                            (read_u64_le-Succeeds raw 328
                                                            (omega arith))
                                                            λ _.
                                                            >>=-Succeeds
                                                            (read_u64_le-Succeeds raw 336
                                                            (omega arith))
                                                            λ _.
                                                            >>=-Succeeds
                                                            (read_u64_le-Succeeds raw 344
                                                            (omega arith))
                                                            λ _.
                                                            >>=-Succeeds
                                                            (read_u64_le-Succeeds raw 352
                                                            (omega arith))
                                                            λ _.
                                                            >>=-Succeeds
                                                            (read_u64_le-Succeeds raw 360
                                                            (omega arith))
                                                            λ _. ok-Succeeds _

  -- The decoder accepts exactly the data of its size under its tag.
  pub decode_oracle_accepts :
      Succeeds (decode_oracle p raw)
      ↔ ((length raw ≡ 368) × (get_elem? raw 0 ≡ some (tag_of AccountType.oracle)))
  unfolding decode_oracle
  decode_oracle_accepts = (
    λ s. (assert_account_iff raw AccountType.oracle 368).0 (bind-assert_account _ _ s),
    λ h. decode_oracle-Succeeds ((assert_account_iff raw AccountType.oracle 368).1 h) h.0,
  )
