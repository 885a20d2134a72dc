-- ===== src/Accounts/AiClaim/Layout.antt =====
-- Where the fields of the account lie in memory, and that the decoder reads them there.
use kassandra.Base.{
  ℕ, ◌<◌, ◌≡◌, refl, sym, ap, ◌∙◌, arith, List, [], ◌∷◌, length, concat, replicate, ok,
  if◌then◌else◌,
}
use kassandra.Platform.{Platform}
use kassandra.Bytes.{u8, u16_le, u64_le, i64_le, le}
use kassandra.Accounts.Common.{AccountType}
use kassandra.Accounts.Layout.{
  header, length-concat, assert_account-header, read_pubkey-field, read_u8-field, read_bool-field,
  read_bytes-field,
}
use kassandra.Accounts.AiClaim.{AiClaim, decode_ai_claim}

module _ (p : Platform) where
  -- The fields of the Rust struct behind its header, in its order, its padding zero.
  unfoldable pub ai_claim_fields : AiClaim p.Address → List (List ℕ)
  ai_claim_fields a =
      p.to_bytes a.oracle
      ∷ p.to_bytes a.proposer
      ∷ a.model_id
      ∷ a.params_hash
      ∷ a.io_hash
      ∷ u8 a.option
      ∷ u8 (if a.challenged then 1 else 0)
      ∷ u8 a.bump
      ∷ replicate 5 0
      ∷ p.to_bytes a.authority
      ∷ []

  -- The ranges of the struct's types, the tag.
  pub record FitsAiClaim (a : AiClaim p.Address) : Type 0 where
    pub tagged : a.account_type ≡ AccountType.ai_claim
    pub model_id : length a.model_id ≡ 32
    pub params_hash : length a.params_hash ≡ 32
    pub io_hash : length a.io_hash ≡ 32
    pub option : a.option < 256
    pub bump : a.bump < 256

  -- The decoder reads back every field of an AiClaim account that lies in memory as the Rust struct
  -- does, its numbers and byte arrays within their types.
  pub decode_ai_claim-layout :
      (a : AiClaim p.Address) (raw : List ℕ)
      → raw ≡ concat (header AccountType.ai_claim ∷ ai_claim_fields a)
      → FitsAiClaim a
      → decode_ai_claim p raw ≡ ok a
  unfolding decode_ai_claim ai_claim_fields u8 u16_le u64_le i64_le le
  decode_ai_claim-layout a raw laid fits =
      let l1 = p.length-to_bytes a.oracle in
      let l2 = p.length-to_bytes a.proposer in
      let l10 = p.length-to_bytes a.authority in
      let cs = header AccountType.ai_claim ∷ ai_claim_fields a in
      rw
        (
          assert_account-header AccountType.ai_claim (ai_claim_fields a) 208 laid
              (length-concat cs ∙ omega (arith, fits)),
          read_pubkey-field cs laid 1 {off = 8} p a.oracle refl (omega arith),
          read_pubkey-field cs laid 2 {off = 40} p a.proposer refl (omega arith),
          read_bytes-field cs laid 3 {off = 72} a.model_id refl (omega arith) fits.model_id,
          read_bytes-field cs laid 4 {off = 104} a.params_hash refl (omega arith) fits.params_hash,
          read_bytes-field cs laid 5 {off = 136} a.io_hash refl (omega arith) fits.io_hash,
          read_u8-field cs laid 6 {off = 168} a.option refl (omega arith) fits.option,
          read_bool-field cs laid 7 {off = 169} a.challenged refl (omega arith),
          read_u8-field cs laid 8 {off = 170} a.bump refl (omega arith) fits.bump,
          read_pubkey-field cs laid 10 {off = 176} p a.authority refl (omega arith),
        )
        (ap (λ t. ok (record a { account_type = t })) (sym fits.tagged))
