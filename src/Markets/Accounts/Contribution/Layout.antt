-- ===== src/Markets/Accounts/Contribution/Layout.antt =====
-- Where the fields of the account lie in memory, and that the decoder reads them there.
use kassandra.Base.{
  ℕ, ◌^◌, ◌<◌, ◌≡◌, refl, sym, ap, ◌∙◌, arith, List, [], ◌∷◌, concat, replicate, ok, if◌then◌else◌,
}
use kassandra.Platform.{Platform}
use kassandra.Bytes.{u8, u16_le, u64_le, le}
use kassandra.Accounts.Layout.{
  length-concat, read_pubkey-field, read_u64_le-field, read_u8-field, read_bool-field,
}
use kassandra.Markets.Accounts.Common.{AccountType}
use kassandra.Markets.Accounts.Header.{header, assert_account-header}
use kassandra.Markets.Accounts.Contribution.{Contribution, decode_contribution}

module _ (p : Platform) where
  -- The fields of the Rust struct behind its header, in its order, its padding zero.
  unfoldable pub contribution_fields : Contribution p.Address → List (List ℕ)
  contribution_fields a =
      p.to_bytes a.market
      ∷ p.to_bytes a.contributor
      ∷ u64_le a.amount
      ∷ u8 (if a.claimed then 1 else 0)
      ∷ u8 a.bump
      ∷ replicate 6 0
      ∷ u64_le a.late_lp
      ∷ []

  -- The ranges of the struct's types, the tag.
  pub record FitsContribution (a : Contribution p.Address) : Type 0 where
    pub tagged : a.account_type ≡ AccountType.contribution
    pub amount : a.amount < 2 ^ 64
    pub bump : a.bump < 256
    pub late_lp : a.late_lp < 2 ^ 64

  pub decode_contribution-layout :
      (a : Contribution p.Address) (raw : List ℕ)
      → raw ≡ concat (header AccountType.contribution ∷ contribution_fields a)
      → FitsContribution a
      → decode_contribution p raw ≡ ok a
  unfolding decode_contribution contribution_fields u8 u16_le u64_le le
  decode_contribution-layout a raw laid fits =
      let l1 = p.length-to_bytes a.market in
      let l2 = p.length-to_bytes a.contributor in
      let cs = header AccountType.contribution ∷ contribution_fields a in
      rw
        (
          assert_account-header AccountType.contribution (contribution_fields a) 96 laid
              (length-concat cs ∙ omega (arith, fits)),
          read_pubkey-field cs laid 1 {off = 8} p a.market refl (omega arith),
          read_pubkey-field cs laid 2 {off = 40} p a.contributor refl (omega arith),
          read_u64_le-field cs laid 3 {off = 72} a.amount refl (omega arith) fits.amount,
          read_bool-field cs laid 4 {off = 80} a.claimed refl (omega arith),
          read_u8-field cs laid 5 {off = 81} a.bump refl (omega arith) fits.bump,
          read_u64_le-field cs laid 7 {off = 88} a.late_lp refl (omega arith) fits.late_lp,
        )
        (ap (λ t. ok (record a { account_type = t })) (sym fits.tagged))
