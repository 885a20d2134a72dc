-- ===== src/Accounts/Proposer/Layout.antt =====
-- Where the fields of the account lie in memory, and that the decoder reads them there.
use kassandra.Base.{
  ℕ, ◌^◌, ◌<◌, ◌≡◌, refl, sym, ap, ◌∙◌, arith, List, [], ◌∷◌, concat, replicate, ok, if◌then◌else◌,
}
use kassandra.Platform.{Platform}
use kassandra.Bytes.{u8, u16_le, u64_le, i64_le, le}
use kassandra.Accounts.Common.{AccountType}
use kassandra.Accounts.Layout.{
  header, length-concat, assert_account-header, read_pubkey-field, read_u64_le-field, read_u8-field,
  read_bool-field,
}
use kassandra.Accounts.Proposer.{Proposer, decode_proposer}

module _ (p : Platform) where
  -- The fields of the Rust struct behind its header, in its order, its padding zero.
  unfoldable pub proposer_fields : Proposer p.Address → List (List ℕ)
  proposer_fields a =
      p.to_bytes a.oracle
      ∷ p.to_bytes a.authority
      ∷ u64_le a.bond
      ∷ u8 a.original_option
      ∷ u8 a.claim_option
      ∷ u8 (if a.disqualified then 1 else 0)
      ∷ u8 (if a.slashed then 1 else 0)
      ∷ u8 (if a.flipped then 1 else 0)
      ∷ u8 a.bump
      ∷ u8 (if a.ai_finalized then 1 else 0)
      ∷ replicate 1 0
      ∷ u64_le a.slashed_amount
      ∷ []

  -- The ranges of the struct's types, the tag.
  pub record FitsProposer (a : Proposer p.Address) : Type 0 where
    pub tagged : a.account_type ≡ AccountType.proposer
    pub bond : a.bond < 2 ^ 64
    pub original_option : a.original_option < 256
    pub claim_option : a.claim_option < 256
    pub bump : a.bump < 256
    pub slashed_amount : a.slashed_amount < 2 ^ 64

  -- The decoder reads back every field of a Proposer account that lies in memory as the Rust struct
  -- does, its numbers within their types.
  pub decode_proposer-layout :
      (a : Proposer p.Address) (raw : List ℕ)
      → raw ≡ concat (header AccountType.proposer ∷ proposer_fields a)
      → FitsProposer a
      → decode_proposer p raw ≡ ok a
  unfolding decode_proposer proposer_fields u8 u16_le u64_le i64_le le
  decode_proposer-layout a raw laid fits =
      let l1 = p.length-to_bytes a.oracle in
      let l2 = p.length-to_bytes a.authority in
      let cs = header AccountType.proposer ∷ proposer_fields a in
      rw
        (
          assert_account-header AccountType.proposer (proposer_fields a) 96 laid
              (length-concat cs ∙ omega (arith, fits)),
          read_pubkey-field cs laid 1 {off = 8} p a.oracle refl (omega arith),
          read_pubkey-field cs laid 2 {off = 40} p a.authority refl (omega arith),
          read_u64_le-field cs laid 3 {off = 72} a.bond refl (omega arith) fits.bond,
          read_u8-field cs laid 4 {off = 80} a.original_option refl (omega arith)
              fits.original_option,
          read_u8-field cs laid 5 {off = 81} a.claim_option refl (omega arith) fits.claim_option,
          read_bool-field cs laid 6 {off = 82} a.disqualified refl (omega arith),
          read_bool-field cs laid 7 {off = 83} a.slashed refl (omega arith),
          read_bool-field cs laid 8 {off = 84} a.flipped refl (omega arith),
          read_u8-field cs laid 9 {off = 85} a.bump refl (omega arith) fits.bump,
          read_bool-field cs laid 10 {off = 86} a.ai_finalized refl (omega arith),
          read_u64_le-field cs laid 12 {off = 88} a.slashed_amount refl (omega arith)
              fits.slashed_amount,
        )
        (ap (λ t. ok (record a { account_type = t })) (sym fits.tagged))
