-- ===== src/Markets/Accounts/Config/Layout.antt =====
-- Where the fields of the account lie in memory, and that the decoder reads them there.
use kassandra.Base.{
  ℕ, ◌^◌, ◌<◌, ◌≡◌, refl, sym, ap, ◌∙◌, arith, List, [], ◌∷◌, concat, replicate, ok,
}
use kassandra.Platform.{Platform}
use kassandra.Bytes.{u8, u16_le, u64_le, le}
use kassandra.Accounts.Layout.{
  length-concat, read_pubkey-field, read_u64_le-field, read_u16_le-field, read_u8-field,
}
use kassandra.Markets.Accounts.Common.{AccountType}
use kassandra.Markets.Accounts.Header.{header, assert_account-header}
use kassandra.Markets.Accounts.Config.{Config, decode_config}

module _ (p : Platform) where
  -- The fields of the Rust struct behind its header, in its order, its padding zero.
  unfoldable pub config_fields : Config p.Address → List (List ℕ)
  config_fields a =
      p.to_bytes a.authority
      ∷ p.to_bytes a.kass_mint
      ∷ u64_le a.min_liquidity
      ∷ u8 a.bump
      ∷ replicate 1 0
      ∷ u16_le a.fee_bps
      ∷ p.to_bytes a.fee_destination
      ∷ replicate 4 0
      ∷ []

  -- The ranges of the struct's types, the tag.
  pub record FitsConfig (a : Config p.Address) : Type 0 where
    pub tagged : a.account_type ≡ AccountType.config
    pub min_liquidity : a.min_liquidity < 2 ^ 64
    pub bump : a.bump < 256
    pub fee_bps : a.fee_bps < 2 ^ 16

  pub decode_config-layout :
      (a : Config p.Address) (raw : List ℕ)
      → raw ≡ concat (header AccountType.config ∷ config_fields a)
      → FitsConfig a
      → decode_config p raw ≡ ok a
  unfolding decode_config config_fields u8 u16_le u64_le le
  decode_config-layout a raw laid fits =
      let l1 = p.length-to_bytes a.authority in
      let l2 = p.length-to_bytes a.kass_mint in
      let l7 = p.length-to_bytes a.fee_destination in
      let cs = header AccountType.config ∷ config_fields a in
      rw
        (
          assert_account-header AccountType.config (config_fields a) 120 laid
              (length-concat cs ∙ omega (arith, fits)),
          read_pubkey-field cs laid 1 {off = 8} p a.authority refl (omega arith),
          read_pubkey-field cs laid 2 {off = 40} p a.kass_mint refl (omega arith),
          read_u64_le-field cs laid 3 {off = 72} a.min_liquidity refl (omega arith)
              fits.min_liquidity,
          read_u8-field cs laid 4 {off = 80} a.bump refl (omega arith) fits.bump,
          read_u16_le-field cs laid 6 {off = 82} a.fee_bps refl (omega arith) fits.fee_bps,
          read_pubkey-field cs laid 7 {off = 84} p a.fee_destination refl (omega arith),
        )
        (ap (λ t. ok (record a { account_type = t })) (sym fits.tagged))
