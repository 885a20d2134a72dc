-- ===== src/Accounts/Protocol/Layout.antt =====
-- Where the fields of the account lie in memory, and that the decoder reads them there.
use kassandra.Base.{
  ℕ, ◌^◌, ◌<◌, ◌≡◌, refl, sym, ap, ◌∙◌, arith, List, [], ◌∷◌, concat, replicate, ok, if◌then◌else◌,
}
use kassandra.Base.Int.{IsI64}
use kassandra.Platform.{Platform}
use kassandra.Bytes.{u8, u16_le, u64_le, i64_le, le}
use kassandra.Accounts.Common.{AccountType}
use kassandra.Accounts.Layout.{
  header, length-concat, assert_account-header, read_pubkey-field, read_u64_le-field,
  read_i64_le-field, read_u8-field, read_bool-field,
}
use kassandra.Accounts.Protocol.{Protocol, decode_protocol}

module _ (p : Platform) where
  -- The fields of the Rust struct behind its header, in its order, its padding zero.
  unfoldable pub protocol_fields : Protocol p.Address → List (List ℕ)
  protocol_fields a =
      p.to_bytes a.admin
      ∷ p.to_bytes a.kass_mint
      ∷ p.to_bytes a.usdc_mint
      ∷ u64_le a.fee_ema
      ∷ i64_le a.last_creation_unix
      ∷ u8 a.bump
      ∷ u8 (if a.governance_set then 1 else 0)
      ∷ replicate 6 0
      ∷ p.to_bytes a.dao_authority
      ∷ p.to_bytes a.kass_dao
      ∷ u64_le a.emission_num
      ∷ u64_le a.emission_den
      ∷ u64_le a.total_supply_cap
      ∷ i64_le a.fee_ema_halflife
      ∷ u64_le a.fee_per_ema_unit
      ∷ u64_le a.fee_ema_increment
      ∷ u64_le a.threshold_num
      ∷ u64_le a.threshold_den
      ∷ u64_le a.market_threshold_num
      ∷ u64_le a.market_threshold_den
      ∷ u64_le a.flip_slash_num
      ∷ u64_le a.flip_slash_den
      ∷ i64_le a.phase_window
      ∷ i64_le a.proposal_window
      ∷ u64_le a.fact_vote_slash_num
      ∷ u64_le a.fact_vote_slash_den
      ∷ u64_le a.reward_proposer_weight
      ∷ u64_le a.reward_fact_weight
      ∷ u64_le a.challenge_fail_usdc_fee_num
      ∷ u64_le a.challenge_fail_usdc_fee_den
      ∷ u64_le a.challenge_success_kass_fee_num
      ∷ u64_le a.challenge_success_kass_fee_den
      ∷ u64_le a.stake_floor_ema_threshold
      ∷ u64_le a.stake_floor_ema_cap
      ∷ u64_le a.stake_floor_max
      ∷ []

  -- The ranges of the struct's types, the tag.
  pub record FitsProtocol (a : Protocol p.Address) : Type 0 where
    pub tagged : a.account_type ≡ AccountType.protocol
    pub fee_ema : a.fee_ema < 2 ^ 64
    pub last_creation_unix : IsI64 a.last_creation_unix
    pub bump : a.bump < 256
    pub emission_num : a.emission_num < 2 ^ 64
    pub emission_den : a.emission_den < 2 ^ 64
    pub total_supply_cap : a.total_supply_cap < 2 ^ 64
    pub fee_ema_halflife : IsI64 a.fee_ema_halflife
    pub fee_per_ema_unit : a.fee_per_ema_unit < 2 ^ 64
    pub fee_ema_increment : a.fee_ema_increment < 2 ^ 64
    pub threshold_num : a.threshold_num < 2 ^ 64
    pub threshold_den : a.threshold_den < 2 ^ 64
    pub market_threshold_num : a.market_threshold_num < 2 ^ 64
    pub market_threshold_den : a.market_threshold_den < 2 ^ 64
    pub flip_slash_num : a.flip_slash_num < 2 ^ 64
    pub flip_slash_den : a.flip_slash_den < 2 ^ 64
    pub phase_window : IsI64 a.phase_window
    pub proposal_window : IsI64 a.proposal_window
    pub fact_vote_slash_num : a.fact_vote_slash_num < 2 ^ 64
    pub fact_vote_slash_den : a.fact_vote_slash_den < 2 ^ 64
    pub reward_proposer_weight : a.reward_proposer_weight < 2 ^ 64
    pub reward_fact_weight : a.reward_fact_weight < 2 ^ 64
    pub challenge_fail_usdc_fee_num : a.challenge_fail_usdc_fee_num < 2 ^ 64
    pub challenge_fail_usdc_fee_den : a.challenge_fail_usdc_fee_den < 2 ^ 64
    pub challenge_success_kass_fee_num : a.challenge_success_kass_fee_num < 2 ^ 64
    pub challenge_success_kass_fee_den : a.challenge_success_kass_fee_den < 2 ^ 64
    pub stake_floor_ema_threshold : a.stake_floor_ema_threshold < 2 ^ 64
    pub stake_floor_ema_cap : a.stake_floor_ema_cap < 2 ^ 64
    pub stake_floor_max : a.stake_floor_max < 2 ^ 64

  -- The decoder reads back every field of a Protocol account that lies in memory as the Rust struct
  -- does, its numbers within their types.
  pub decode_protocol-layout :
      (a : Protocol p.Address) (raw : List ℕ)
      → raw ≡ concat (header AccountType.protocol ∷ protocol_fields a)
      → FitsProtocol a
      → decode_protocol p raw ≡ ok a
  unfolding decode_protocol protocol_fields u8 u16_le u64_le i64_le le
  decode_protocol-layout a raw laid fits =
      let l1 = p.length-to_bytes a.admin in
      let l2 = p.length-to_bytes a.kass_mint in
      let l3 = p.length-to_bytes a.usdc_mint in
      let l9 = p.length-to_bytes a.dao_authority in
      let l10 = p.length-to_bytes a.kass_dao in
      let cs = header AccountType.protocol ∷ protocol_fields a in
      rw
        (
          assert_account-header AccountType.protocol (protocol_fields a) 392 laid
              (length-concat cs ∙ omega (arith, fits)),
          read_pubkey-field cs laid 1 {off = 8} p a.admin refl (omega arith),
          read_pubkey-field cs laid 2 {off = 40} p a.kass_mint refl (omega arith),
          read_pubkey-field cs laid 3 {off = 72} p a.usdc_mint refl (omega arith),
          read_u64_le-field cs laid 4 {off = 104} a.fee_ema refl (omega arith) fits.fee_ema,
          read_i64_le-field cs laid 5 {off = 112} a.last_creation_unix refl (omega arith)
              fits.last_creation_unix,
          read_u8-field cs laid 6 {off = 120} a.bump refl (omega arith) fits.bump,
          read_bool-field cs laid 7 {off = 121} a.governance_set refl (omega arith),
          read_pubkey-field cs laid 9 {off = 128} p a.dao_authority refl (omega arith),
          read_pubkey-field cs laid 10 {off = 160} p a.kass_dao refl (omega arith),
          read_u64_le-field cs laid 11 {off = 192} a.emission_num refl (omega arith)
              fits.emission_num,
          read_u64_le-field cs laid 12 {off = 200} a.emission_den refl (omega arith)
              fits.emission_den,
          read_u64_le-field cs laid 13 {off = 208} a.total_supply_cap refl (omega arith)
              fits.total_supply_cap,
          read_i64_le-field cs laid 14 {off = 216} a.fee_ema_halflife refl (omega arith)
              fits.fee_ema_halflife,
          read_u64_le-field cs laid 15 {off = 224} a.fee_per_ema_unit refl (omega arith)
              fits.fee_per_ema_unit,
          read_u64_le-field cs laid 16 {off = 232} a.fee_ema_increment refl (omega arith)
              fits.fee_ema_increment,
          read_u64_le-field cs laid 17 {off = 240} a.threshold_num refl (omega arith)
              fits.threshold_num,
          read_u64_le-field cs laid 18 {off = 248} a.threshold_den refl (omega arith)
              fits.threshold_den,
          read_u64_le-field cs laid 19 {off = 256} a.market_threshold_num refl (omega arith)
              fits.market_threshold_num,
          read_u64_le-field cs laid 20 {off = 264} a.market_threshold_den refl (omega arith)
              fits.market_threshold_den,
          read_u64_le-field cs laid 21 {off = 272} a.flip_slash_num refl (omega arith)
              fits.flip_slash_num,
          read_u64_le-field cs laid 22 {off = 280} a.flip_slash_den refl (omega arith)
              fits.flip_slash_den,
          read_i64_le-field cs laid 23 {off = 288} a.phase_window refl (omega arith)
              fits.phase_window,
          read_i64_le-field cs laid 24 {off = 296} a.proposal_window refl (omega arith)
              fits.proposal_window,
          read_u64_le-field cs laid 25 {off = 304} a.fact_vote_slash_num refl (omega arith)
              fits.fact_vote_slash_num,
          read_u64_le-field cs laid 26 {off = 312} a.fact_vote_slash_den refl (omega arith)
              fits.fact_vote_slash_den,
          read_u64_le-field cs laid 27 {off = 320} a.reward_proposer_weight refl (omega arith)
              fits.reward_proposer_weight,
          read_u64_le-field cs laid 28 {off = 328} a.reward_fact_weight refl (omega arith)
              fits.reward_fact_weight,
          read_u64_le-field cs laid 29 {off = 336} a.challenge_fail_usdc_fee_num refl (omega arith)
              fits.challenge_fail_usdc_fee_num,
          read_u64_le-field cs laid 30 {off = 344} a.challenge_fail_usdc_fee_den refl (omega arith)
              fits.challenge_fail_usdc_fee_den,
          read_u64_le-field cs laid 31 {off = 352} a.challenge_success_kass_fee_num refl
              (omega arith) fits.challenge_success_kass_fee_num,
          read_u64_le-field cs laid 32 {off = 360} a.challenge_success_kass_fee_den refl
              (omega arith) fits.challenge_success_kass_fee_den,
          read_u64_le-field cs laid 33 {off = 368} a.stake_floor_ema_threshold refl (omega arith)
              fits.stake_floor_ema_threshold,
          read_u64_le-field cs laid 34 {off = 376} a.stake_floor_ema_cap refl (omega arith)
              fits.stake_floor_ema_cap,
          read_u64_le-field cs laid 35 {off = 384} a.stake_floor_max refl (omega arith)
              fits.stake_floor_max,
        )
        (ap (λ t. ok (record a { account_type = t })) (sym fits.tagged))
