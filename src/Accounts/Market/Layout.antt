-- ===== src/Accounts/Market/Layout.antt =====
-- Where the fields of the account lie in memory, and that the decoder reads them there.
use kassandra.Base.{
  ℕ, ◌^◌, ◌<◌, ◌≡◌, refl, sym, ap, ◌∙◌, arith, List, [], ◌∷◌, concat, replicate, ok, if◌then◌else◌,
}
use kassandra.Base.Int.{IsI64}
use kassandra.Platform.{Platform}
use kassandra.Bytes.{u8, u16_le, u64_le, i64_le, le}
use kassandra.Accounts.Common.{AccountType}
use kassandra.Accounts.Layout.{
  header, length-concat, assert_account-header, read_pubkey-field, read_u64_le-field,
  read_i64_le-field, read_u8-field, read_bool-field,
}
use kassandra.Accounts.Market.{Market, decode_market}

module _ (p : Platform) where
  -- The fields of the Rust struct behind its header, in its order, its padding zero.
  unfoldable pub market_fields : Market p.Address → List (List ℕ)
  market_fields a =
      p.to_bytes a.oracle
      ∷ p.to_bytes a.ai_claim
      ∷ p.to_bytes a.proposer
      ∷ p.to_bytes a.challenger
      ∷ p.to_bytes a.question
      ∷ p.to_bytes a.kass_vault
      ∷ p.to_bytes a.usdc_vault
      ∷ p.to_bytes a.pass_amm
      ∷ p.to_bytes a.fail_amm
      ∷ p.to_bytes a.oracle_pass_kass
      ∷ p.to_bytes a.oracle_fail_kass
      ∷ p.to_bytes a.challenger_usdc_vault
      ∷ i64_le a.twap_end
      ∷ u64_le a.challenger_usdc
      ∷ u8 (if a.settled then 1 else 0)
      ∷ u8 a.bump
      ∷ replicate 6 0
      ∷ []

  -- The ranges of the struct's types, the tag.
  pub record FitsMarket (a : Market p.Address) : Type 0 where
    pub tagged : a.account_type ≡ AccountType.market
    pub twap_end : IsI64 a.twap_end
    pub challenger_usdc : a.challenger_usdc < 2 ^ 64
    pub bump : a.bump < 256

  -- The decoder reads back every field of a Market account that lies in memory as the Rust struct
  -- does, its numbers within their types.
  pub decode_market-layout :
      (a : Market p.Address) (raw : List ℕ)
      → raw ≡ concat (header AccountType.market ∷ market_fields a)
      → FitsMarket a
      → decode_market p raw ≡ ok a
  unfolding decode_market market_fields u8 u16_le u64_le i64_le le
  decode_market-layout a raw laid fits =
      let l1 = p.length-to_bytes a.oracle in
      let l2 = p.length-to_bytes a.ai_claim in
      let l3 = p.length-to_bytes a.proposer in
      let l4 = p.length-to_bytes a.challenger in
      let l5 = p.length-to_bytes a.question in
      let l6 = p.length-to_bytes a.kass_vault in
      let l7 = p.length-to_bytes a.usdc_vault in
      let l8 = p.length-to_bytes a.pass_amm in
      let l9 = p.length-to_bytes a.fail_amm in
      let l10 = p.length-to_bytes a.oracle_pass_kass in
      let l11 = p.length-to_bytes a.oracle_fail_kass in
      let l12 = p.length-to_bytes a.challenger_usdc_vault in
      let cs = header AccountType.market ∷ market_fields a in
      rw
        (
          assert_account-header AccountType.market (market_fields a) 416 laid
              (length-concat cs ∙ omega (arith, fits)),
          read_pubkey-field cs laid 1 {off = 8} p a.oracle refl (omega arith),
          read_pubkey-field cs laid 2 {off = 40} p a.ai_claim refl (omega arith),
          read_pubkey-field cs laid 3 {off = 72} p a.proposer refl (omega arith),
          read_pubkey-field cs laid 4 {off = 104} p a.challenger refl (omega arith),
          read_pubkey-field cs laid 5 {off = 136} p a.question refl (omega arith),
          read_pubkey-field cs laid 6 {off = 168} p a.kass_vault refl (omega arith),
          read_pubkey-field cs laid 7 {off = 200} p a.usdc_vault refl (omega arith),
          read_pubkey-field cs laid 8 {off = 232} p a.pass_amm refl (omega arith),
          read_pubkey-field cs laid 9 {off = 264} p a.fail_amm refl (omega arith),
          read_pubkey-field cs laid 10 {off = 296} p a.oracle_pass_kass refl (omega arith),
          read_pubkey-field cs laid 11 {off = 328} p a.oracle_fail_kass refl (omega arith),
          read_pubkey-field cs laid 12 {off = 360} p a.challenger_usdc_vault refl (omega arith),
          read_i64_le-field cs laid 13 {off = 392} a.twap_end refl (omega arith) fits.twap_end,
          read_u64_le-field cs laid 14 {off = 400} a.challenger_usdc refl (omega arith)
              fits.challenger_usdc,
          read_bool-field cs laid 15 {off = 408} a.settled refl (omega arith),
          read_u8-field cs laid 16 {off = 409} a.bump refl (omega arith) fits.bump,
        )
        (ap (λ t. ok (record a { account_type = t })) (sym fits.tagged))
