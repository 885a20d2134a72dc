-- ===== src/Accounts/Fact/Layout.antt =====
-- Where the fields of the account lie in memory, and that the decoder reads them there.
use kassandra.Base.{
  ℕ, ◌^◌, ◌<◌, ◌≡◌, refl, sym, ◌∙◌, arith, List, [], ◌∷◌, length, concat, replicate, ok,
  if◌then◌else◌, take, min,
}
use kassandra.Platform.{Platform}
use kassandra.Bytes.{u8, u16_le, u64_le, i64_le, le}
use kassandra.Accounts.Common.{AccountType}
use kassandra.Accounts.Layout.{
  header, length-concat, assert_account-header, read_pubkey-field, read_u64_le-field,
  read_u16_le-field, read_u8-field, read_bool-field, read_bytes-field,
}
use mathlib.Core.Path.{ap₂}
use kassandra.Accounts.Fact.{Fact, decode_fact, uri_cap}

module _ (p : Platform) where
  -- The fields of the Rust struct behind its header, in its order, its padding zero.
  unfoldable pub fact_fields : Fact p.Address p.Text → List (List ℕ)
  fact_fields a =
      p.to_bytes a.oracle
      ∷ p.to_bytes a.proposer
      ∷ a.content_hash
      ∷ u64_le a.stake
      ∷ u64_le a.approve_stake
      ∷ u64_le a.duplicate_stake
      ∷ u16_le a.uri_len
      ∷ u8 (if a.agreed then 1 else 0)
      ∷ u8 (if a.duplicate then 1 else 0)
      ∷ u8 (if a.settled then 1 else 0)
      ∷ u8 a.bump
      ∷ replicate 2 0
      ∷ a.uri_raw
      ∷ []

  -- The ranges of the struct's types, the tag, and `uri` the text of its first `uri_len` bytes.
  pub record FitsFact (a : Fact p.Address p.Text) : Type 0 where
    pub tagged : a.account_type ≡ AccountType.fact
    pub content_hash : length a.content_hash ≡ 32
    pub stake : a.stake < 2 ^ 64
    pub approve_stake : a.approve_stake < 2 ^ 64
    pub duplicate_stake : a.duplicate_stake < 2 ^ 64
    pub uri_len : a.uri_len < 2 ^ 16
    pub bump : a.bump < 256
    pub uri_raw : length a.uri_raw ≡ 200
    pub uri : a.uri ≡ p.text_decode (take (min a.uri_len uri_cap) a.uri_raw)

  -- The decoder reads back every field of a Fact account that lies in memory as the Rust struct does,
  -- its numbers and byte arrays within their types. The uri is the text of the first `uri_len` bytes
  -- of its 200, and of all of them if `uri_len` is more.
  pub decode_fact-layout :
      (a : Fact p.Address p.Text) (raw : List ℕ)
      → raw ≡ concat (header AccountType.fact ∷ fact_fields a)
      → FitsFact a
      → decode_fact p raw ≡ ok a
  unfolding decode_fact fact_fields u8 u16_le u64_le i64_le le
  decode_fact-layout a raw laid fits =
      let l1 = p.length-to_bytes a.oracle in
      let l2 = p.length-to_bytes a.proposer in
      let cs = header AccountType.fact ∷ fact_fields a in
      rw
        (
          assert_account-header AccountType.fact (fact_fields a) 336 laid
              (length-concat cs ∙ omega (arith, fits)),
          read_u16_le-field cs laid 7 {off = 128} a.uri_len refl (omega arith) fits.uri_len,
          read_bytes-field cs laid 13 {off = 136} a.uri_raw refl (omega arith) fits.uri_raw,
          read_pubkey-field cs laid 1 {off = 8} p a.oracle refl (omega arith),
          read_pubkey-field cs laid 2 {off = 40} p a.proposer refl (omega arith),
          read_bytes-field cs laid 3 {off = 72} a.content_hash refl (omega arith) fits.content_hash,
          read_u64_le-field cs laid 4 {off = 104} a.stake refl (omega arith) fits.stake,
          read_u64_le-field cs laid 5 {off = 112} a.approve_stake refl (omega arith)
              fits.approve_stake,
          read_u64_le-field cs laid 6 {off = 120} a.duplicate_stake refl (omega arith)
              fits.duplicate_stake,
          read_bool-field cs laid 8 {off = 130} a.agreed refl (omega arith),
          read_bool-field cs laid 9 {off = 131} a.duplicate refl (omega arith),
          read_bool-field cs laid 10 {off = 132} a.settled refl (omega arith),
          read_u8-field cs laid 11 {off = 133} a.bump refl (omega arith) fits.bump,
        )
        (ap₂ (λ t q. ok (record a { account_type = t; uri = q })) (sym fits.tagged) (sym fits.uri))
