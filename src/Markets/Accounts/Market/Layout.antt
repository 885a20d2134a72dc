-- ===== src/Markets/Accounts/Market/Layout.antt =====
-- Where the fields of the account lie in memory, and that the decoder reads them there.
use kassandra.Base.{
  ℕ, ◌^◌, ◌<◌, ◌≡◌, refl, sym, ap, ◌∙◌, arith, List, [], ◌∷◌, concat, replicate, ok, if◌then◌else◌,
}
use kassandra.Platform.{Platform}
use kassandra.Bytes.{u8, u16_le, u64_le, le}
use kassandra.Accounts.Layout.{
  length-concat, read_pubkey-field, read_u64_le-field, read_u16_le-field, read_u8-field,
  read_bool-field,
}
use kassandra.Markets.Accounts.Common.{AccountType}
use kassandra.Markets.Accounts.Header.{header, assert_account-header}
use kassandra.Markets.Accounts.Market.{Market, decode_market}

module _ (p : Platform) where
  -- The fields of the Rust struct behind its header, in its order, its padding zero.
  unfoldable pub market_fields : Market p.Address → List (List ℕ)
  market_fields a =
      p.to_bytes a.oracle
      ∷ p.to_bytes a.creator
      ∷ p.to_bytes a.kass_mint
      ∷ p.to_bytes a.escrow_vault
      ∷ u64_le a.min_liquidity
      ∷ u64_le a.total_contributed
      ∷ u16_le a.open_contributions
      ∷ u8 a.status
      ∷ u8 a.bump
      ∷ u8 a.escrow_bump
      ∷ replicate 3 0
      ∷ p.to_bytes a.question
      ∷ p.to_bytes a.vault
      ∷ p.to_bytes a.yes_mint
      ∷ p.to_bytes a.no_mint
      ∷ p.to_bytes a.amm
      ∷ p.to_bytes a.lp_mint
      ∷ p.to_bytes a.lp_vault
      ∷ u64_le a.lp_total
      ∷ u8 (if a.settled then 1 else 0)
      ∷ replicate 1 0
      ∷ u16_le a.fee_bps
      ∷ u8 (if a.fee_collected then 1 else 0)
      ∷ u8 a.outcome_index
      ∷ replicate 2 0
      ∷ u64_le a.activation_lp
      ∷ u64_le a.activation_contributed
      ∷ u64_le a.gross_lp_total
      ∷ []

  -- The ranges of the struct's types, the tag.
  pub record FitsMarket (a : Market p.Address) : Type 0 where
    pub tagged : a.account_type ≡ AccountType.market
    pub min_liquidity : a.min_liquidity < 2 ^ 64
    pub total_contributed : a.total_contributed < 2 ^ 64
    pub open_contributions : a.open_contributions < 2 ^ 16
    pub status : a.status < 256
    pub bump : a.bump < 256
    pub escrow_bump : a.escrow_bump < 256
    pub lp_total : a.lp_total < 2 ^ 64
    pub fee_bps : a.fee_bps < 2 ^ 16
    pub outcome_index : a.outcome_index < 256
    pub activation_lp : a.activation_lp < 2 ^ 64
    pub activation_contributed : a.activation_contributed < 2 ^ 64
    pub gross_lp_total : a.gross_lp_total < 2 ^ 64

  pub decode_market-layout :
      (a : Market p.Address) (raw : List ℕ)
      → raw ≡ concat (header AccountType.market ∷ market_fields a)
      → FitsMarket a
      → decode_market p raw ≡ ok a
  unfolding decode_market market_fields u8 u16_le u64_le le
  decode_market-layout a raw laid fits =
      let l1 = p.length-to_bytes a.oracle in
      let l2 = p.length-to_bytes a.creator in
      let l3 = p.length-to_bytes a.kass_mint in
      let l4 = p.length-to_bytes a.escrow_vault in
      let l12 = p.length-to_bytes a.question in
      let l13 = p.length-to_bytes a.vault in
      let l14 = p.length-to_bytes a.yes_mint in
      let l15 = p.length-to_bytes a.no_mint in
      let l16 = p.length-to_bytes a.amm in
      let l17 = p.length-to_bytes a.lp_mint in
      let l18 = p.length-to_bytes a.lp_vault in
      let cs = header AccountType.market ∷ market_fields a in
      rw
        (
          assert_account-header AccountType.market (market_fields a) 424 laid
              (length-concat cs ∙ omega (arith, fits)),
          read_pubkey-field cs laid 1 {off = 8} p a.oracle refl (omega arith),
          read_pubkey-field cs laid 2 {off = 40} p a.creator refl (omega arith),
          read_pubkey-field cs laid 3 {off = 72} p a.kass_mint refl (omega arith),
          read_pubkey-field cs laid 4 {off = 104} p a.escrow_vault refl (omega arith),
          read_u64_le-field cs laid 5 {off = 136} a.min_liquidity refl (omega arith)
              fits.min_liquidity,
          read_u64_le-field cs laid 6 {off = 144} a.total_contributed refl (omega arith)
              fits.total_contributed,
          read_u16_le-field cs laid 7 {off = 152} a.open_contributions refl (omega arith)
              fits.open_contributions,
          read_u8-field cs laid 8 {off = 154} a.status refl (omega arith) fits.status,
          read_u8-field cs laid 9 {off = 155} a.bump refl (omega arith) fits.bump,
          read_u8-field cs laid 10 {off = 156} a.escrow_bump refl (omega arith) fits.escrow_bump,
          read_pubkey-field cs laid 12 {off = 160} p a.question refl (omega arith),
          read_pubkey-field cs laid 13 {off = 192} p a.vault refl (omega arith),
          read_pubkey-field cs laid 14 {off = 224} p a.yes_mint refl (omega arith),
          read_pubkey-field cs laid 15 {off = 256} p a.no_mint refl (omega arith),
          read_pubkey-field cs laid 16 {off = 288} p a.amm refl (omega arith),
          read_pubkey-field cs laid 17 {off = 320} p a.lp_mint refl (omega arith),
          read_pubkey-field cs laid 18 {off = 352} p a.lp_vault refl (omega arith),
          read_u64_le-field cs laid 19 {off = 384} a.lp_total refl (omega arith) fits.lp_total,
          read_bool-field cs laid 20 {off = 392} a.settled refl (omega arith),
          read_u16_le-field cs laid 22 {off = 394} a.fee_bps refl (omega arith) fits.fee_bps,
          read_bool-field cs laid 23 {off = 396} a.fee_collected refl (omega arith),
          read_u8-field cs laid 24 {off = 397} a.outcome_index refl (omega arith)
              fits.outcome_index,
          read_u64_le-field cs laid 26 {off = 400} a.activation_lp refl (omega arith)
              fits.activation_lp,
          read_u64_le-field cs laid 27 {off = 408} a.activation_contributed refl (omega arith)
              fits.activation_contributed,
          read_u64_le-field cs laid 28 {off = 416} a.gross_lp_total refl (omega arith)
              fits.gross_lp_total,
        )
        (ap (λ t. ok (record a { account_type = t })) (sym fits.tagged))
