-- ===== src/Accounts/FactVote/Layout.antt =====
-- Where the fields of the account lie in memory, and that the decoder reads them there.
use kassandra.Base.{ℕ, ◌^◌, ◌<◌, ◌≡◌, refl, sym, ◌∙◌, arith, List, [], ◌∷◌, concat, replicate, ok}
use kassandra.Platform.{Platform}
use kassandra.Bytes.{u8, u16_le, u64_le, i64_le, le}
use kassandra.Accounts.Common.{AccountType}
use kassandra.Accounts.Layout.{
  header, length-concat, assert_account-header, read_pubkey-field, read_u64_le-field, read_u8-field,
}
use mathlib.Core.Path.{ap₂}
use kassandra.Accounts.FactVote.{FactVote, decode_fact_vote, vote_kind_of}

module _ (p : Platform) where
  -- The fields of the Rust struct behind its header, in its order, its padding zero.
  unfoldable pub fact_vote_fields : FactVote p.Address → List (List ℕ)
  fact_vote_fields a =
      p.to_bytes a.fact
      ∷ p.to_bytes a.voter
      ∷ u64_le a.stake
      ∷ u8 a.kind_raw
      ∷ u8 a.bump
      ∷ replicate 6 0
      ∷ []

  -- The ranges of the struct's types, the tag, and `kind` as its byte says.
  pub record FitsFactVote (a : FactVote p.Address) : Type 0 where
    pub tagged : a.account_type ≡ AccountType.fact_vote
    pub stake : a.stake < 2 ^ 64
    pub kind_raw : a.kind_raw < 256
    pub bump : a.bump < 256
    pub kind : a.kind ≡ vote_kind_of a.kind_raw

  -- The decoder reads back every field of a FactVote account that lies in memory as the Rust struct
  -- does, its numbers within their types, and the kind is the one that its byte stands for.
  pub decode_fact_vote-layout :
      (a : FactVote p.Address) (raw : List ℕ)
      → raw ≡ concat (header AccountType.fact_vote ∷ fact_vote_fields a)
      → FitsFactVote a
      → decode_fact_vote p raw ≡ ok a
  unfolding decode_fact_vote fact_vote_fields u8 u16_le u64_le i64_le le
  decode_fact_vote-layout a raw laid fits =
      let l1 = p.length-to_bytes a.fact in
      let l2 = p.length-to_bytes a.voter in
      let cs = header AccountType.fact_vote ∷ fact_vote_fields a in
      rw
        (
          assert_account-header AccountType.fact_vote (fact_vote_fields a) 88 laid
              (length-concat cs ∙ omega (arith, fits)),
          read_u8-field cs laid 4 {off = 80} a.kind_raw refl (omega arith) fits.kind_raw,
          read_pubkey-field cs laid 1 {off = 8} p a.fact refl (omega arith),
          read_pubkey-field cs laid 2 {off = 40} p a.voter refl (omega arith),
          read_u64_le-field cs laid 3 {off = 72} a.stake refl (omega arith) fits.stake,
          read_u8-field cs laid 5 {off = 81} a.bump refl (omega arith) fits.bump,
        )
        (ap₂ (λ t q. ok (record a { account_type = t; kind = q })) (sym fits.tagged)
          (sym fits.kind))
