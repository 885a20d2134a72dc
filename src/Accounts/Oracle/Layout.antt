-- ===== src/Accounts/Oracle/Layout.antt =====
-- Where the fields of the account lie in memory, and that the decoder reads them there.
use kassandra.Base.{ℕ, ◌^◌, ◌<◌, ◌≡◌, refl, sym, ◌∙◌, arith, List, [], ◌∷◌, concat, ok}
use kassandra.Base.Int.{IsI64}
use kassandra.Platform.{Platform}
use kassandra.Bytes.{u8, u16_le, u64_le, i64_le, le}
use kassandra.Accounts.Common.{AccountType}
use kassandra.Accounts.Layout.{
  header, length-concat, assert_account-header, read_pubkey-field, read_u64_le-field,
  read_i64_le-field, read_u16_le-field, read_u8-field,
}
use mathlib.Core.Path.{ap₂}
use kassandra.Accounts.Oracle.{Oracle, decode_oracle, phase_of}

module _ (p : Platform) where
  -- The fields of the Rust struct behind its header, in its order, its padding zero.
  unfoldable pub oracle_fields : Oracle p.Address → List (List ℕ)
  oracle_fields a =
      p.to_bytes a.creator
      ∷ p.to_bytes a.kass_mint
      ∷ p.to_bytes a.usdc_mint
      ∷ p.to_bytes a.stake_vault
      ∷ i64_le a.deadline
      ∷ i64_le a.phase_ends_at
      ∷ i64_le a.twap_window
      ∷ u8 a.options_count
      ∷ u8 a.phase_raw
      ∷ u16_le a.proposer_count
      ∷ u16_le a.surviving_count
      ∷ u16_le a.fact_count
      ∷ u64_le a.total_oracle_stake
      ∷ u64_le a.bond_pool
      ∷ u64_le a.dispute_bond_total
      ∷ u16_le a.settled_count
      ∷ u16_le a.ai_finalized_count
      ∷ u8 a.bump
      ∷ u8 a.resolved_option
      ∷ u16_le a.open_challenge_count
      ∷ u64_le a.threshold_num
      ∷ u64_le a.threshold_den
      ∷ u64_le a.market_threshold_num
      ∷ u64_le a.market_threshold_den
      ∷ u64_le a.flip_slash_num
      ∷ u64_le a.flip_slash_den
      ∷ i64_le a.phase_window
      ∷ i64_le a.proposal_window
      ∷ u64_le a.fact_vote_slash_num
      ∷ u64_le a.fact_vote_slash_den
      ∷ u64_le a.reward_proposer_weight
      ∷ u64_le a.reward_fact_weight
      ∷ u64_le a.challenge_fail_usdc_fee_num
      ∷ u64_le a.challenge_fail_usdc_fee_den
      ∷ u64_le a.challenge_success_kass_fee_num
      ∷ u64_le a.challenge_success_kass_fee_den
      ∷ u64_le a.total_correct_proposer_stake
      ∷ u64_le a.total_approved_fact_stake
      ∷ u64_le a.reward_pool
      ∷ u64_le a.reward_emission
      ∷ u64_le a.min_stake
      ∷ []

  -- The ranges of the struct's types, the tag, and `phase` as its byte says.
  pub record FitsOracle (a : Oracle p.Address) : Type 0 where
    pub tagged : a.account_type ≡ AccountType.oracle
    pub deadline : IsI64 a.deadline
    pub phase_ends_at : IsI64 a.phase_ends_at
    pub twap_window : IsI64 a.twap_window
    pub options_count : a.options_count < 256
    pub phase_raw : a.phase_raw < 256
    pub proposer_count : a.proposer_count < 2 ^ 16
    pub surviving_count : a.surviving_count < 2 ^ 16
    pub fact_count : a.fact_count < 2 ^ 16
    pub total_oracle_stake : a.total_oracle_stake < 2 ^ 64
    pub bond_pool : a.bond_pool < 2 ^ 64
    pub dispute_bond_total : a.dispute_bond_total < 2 ^ 64
    pub settled_count : a.settled_count < 2 ^ 16
    pub ai_finalized_count : a.ai_finalized_count < 2 ^ 16
    pub bump : a.bump < 256
    pub resolved_option : a.resolved_option < 256
    pub open_challenge_count : a.open_challenge_count < 2 ^ 16
    pub threshold_num : a.threshold_num < 2 ^ 64
    pub threshold_den : a.threshold_den < 2 ^ 64
    pub market_threshold_num : a.market_threshold_num < 2 ^ 64
    pub market_threshold_den : a.market_threshold_den < 2 ^ 64
    pub flip_slash_num : a.flip_slash_num < 2 ^ 64
    pub flip_slash_den : a.flip_slash_den < 2 ^ 64
    pub phase_window : IsI64 a.phase_window
    pub proposal_window : IsI64 a.proposal_window
    pub fact_vote_slash_num : a.fact_vote_slash_num < 2 ^ 64
    pub fact_vote_slash_den : a.fact_vote_slash_den < 2 ^ 64
    pub reward_proposer_weight : a.reward_proposer_weight < 2 ^ 64
    pub reward_fact_weight : a.reward_fact_weight < 2 ^ 64
    pub challenge_fail_usdc_fee_num : a.challenge_fail_usdc_fee_num < 2 ^ 64
    pub challenge_fail_usdc_fee_den : a.challenge_fail_usdc_fee_den < 2 ^ 64
    pub challenge_success_kass_fee_num : a.challenge_success_kass_fee_num < 2 ^ 64
    pub challenge_success_kass_fee_den : a.challenge_success_kass_fee_den < 2 ^ 64
    pub total_correct_proposer_stake : a.total_correct_proposer_stake < 2 ^ 64
    pub total_approved_fact_stake : a.total_approved_fact_stake < 2 ^ 64
    pub reward_pool : a.reward_pool < 2 ^ 64
    pub reward_emission : a.reward_emission < 2 ^ 64
    pub min_stake : a.min_stake < 2 ^ 64
    pub phase : a.phase ≡ phase_of a.phase_raw

  -- The decoder reads back every field of an Oracle account that lies in memory as the Rust struct
  -- does, its numbers within their types, and the phase is the one that its byte stands for.
  pub decode_oracle-layout :
      (a : Oracle p.Address) (raw : List ℕ)
      → raw ≡ concat (header AccountType.oracle ∷ oracle_fields a)
      → FitsOracle a
      → decode_oracle p raw ≡ ok a
  unfolding decode_oracle oracle_fields u8 u16_le u64_le i64_le le
  decode_oracle-layout a raw laid fits =
      let l1 = p.length-to_bytes a.creator in
      let l2 = p.length-to_bytes a.kass_mint in
      let l3 = p.length-to_bytes a.usdc_mint in
      let l4 = p.length-to_bytes a.stake_vault in
      let cs = header AccountType.oracle ∷ oracle_fields a in
      rw
        (
          assert_account-header AccountType.oracle (oracle_fields a) 368 laid
              (length-concat cs ∙ omega (arith, fits)),
          read_u8-field cs laid 9 {off = 161} a.phase_raw refl (omega arith) fits.phase_raw,
          read_pubkey-field cs laid 1 {off = 8} p a.creator refl (omega arith),
          read_pubkey-field cs laid 2 {off = 40} p a.kass_mint refl (omega arith),
          read_pubkey-field cs laid 3 {off = 72} p a.usdc_mint refl (omega arith),
          read_pubkey-field cs laid 4 {off = 104} p a.stake_vault refl (omega arith),
          read_i64_le-field cs laid 5 {off = 136} a.deadline refl (omega arith) fits.deadline,
          read_i64_le-field cs laid 6 {off = 144} a.phase_ends_at refl (omega arith)
              fits.phase_ends_at,
          read_i64_le-field cs laid 7 {off = 152} a.twap_window refl (omega arith) fits.twap_window,
          read_u8-field cs laid 8 {off = 160} a.options_count refl (omega arith) fits.options_count,
          read_u16_le-field cs laid 10 {off = 162} a.proposer_count refl (omega arith)
              fits.proposer_count,
          read_u16_le-field cs laid 11 {off = 164} a.surviving_count refl (omega arith)
              fits.surviving_count,
          read_u16_le-field cs laid 12 {off = 166} a.fact_count refl (omega arith) fits.fact_count,
          read_u64_le-field cs laid 13 {off = 168} a.total_oracle_stake refl (omega arith)
              fits.total_oracle_stake,
          read_u64_le-field cs laid 14 {off = 176} a.bond_pool refl (omega arith) fits.bond_pool,
          read_u64_le-field cs laid 15 {off = 184} a.dispute_bond_total refl (omega arith)
              fits.dispute_bond_total,
          read_u16_le-field cs laid 16 {off = 192} a.settled_count refl (omega arith)
              fits.settled_count,
          read_u16_le-field cs laid 17 {off = 194} a.ai_finalized_count refl (omega arith)
              fits.ai_finalized_count,
          read_u8-field cs laid 18 {off = 196} a.bump refl (omega arith) fits.bump,
          read_u8-field cs laid 19 {off = 197} a.resolved_option refl (omega arith)
              fits.resolved_option,
          read_u16_le-field cs laid 20 {off = 198} a.open_challenge_count refl (omega arith)
              fits.open_challenge_count,
          read_u64_le-field cs laid 21 {off = 200} a.threshold_num refl (omega arith)
              fits.threshold_num,
          read_u64_le-field cs laid 22 {off = 208} a.threshold_den refl (omega arith)
              fits.threshold_den,
          read_u64_le-field cs laid 23 {off = 216} a.market_threshold_num refl (omega arith)
              fits.market_threshold_num,
          read_u64_le-field cs laid 24 {off = 224} a.market_threshold_den refl (omega arith)
              fits.market_threshold_den,
          read_u64_le-field cs laid 25 {off = 232} a.flip_slash_num refl (omega arith)
              fits.flip_slash_num,
          read_u64_le-field cs laid 26 {off = 240} a.flip_slash_den refl (omega arith)
              fits.flip_slash_den,
          read_i64_le-field cs laid 27 {off = 248} a.phase_window refl (omega arith)
              fits.phase_window,
          read_i64_le-field cs laid 28 {off = 256} a.proposal_window refl (omega arith)
              fits.proposal_window,
          read_u64_le-field cs laid 29 {off = 264} a.fact_vote_slash_num refl (omega arith)
              fits.fact_vote_slash_num,
          read_u64_le-field cs laid 30 {off = 272} a.fact_vote_slash_den refl (omega arith)
              fits.fact_vote_slash_den,
          read_u64_le-field cs laid 31 {off = 280} a.reward_proposer_weight refl (omega arith)
              fits.reward_proposer_weight,
          read_u64_le-field cs laid 32 {off = 288} a.reward_fact_weight refl (omega arith)
              fits.reward_fact_weight,
          read_u64_le-field cs laid 33 {off = 296} a.challenge_fail_usdc_fee_num refl (omega arith)
              fits.challenge_fail_usdc_fee_num,
          read_u64_le-field cs laid 34 {off = 304} a.challenge_fail_usdc_fee_den refl (omega arith)
              fits.challenge_fail_usdc_fee_den,
          read_u64_le-field cs laid 35 {off = 312} a.challenge_success_kass_fee_num refl
              (omega arith) fits.challenge_success_kass_fee_num,
          read_u64_le-field cs laid 36 {off = 320} a.challenge_success_kass_fee_den refl
              (omega arith) fits.challenge_success_kass_fee_den,
          read_u64_le-field cs laid 37 {off = 328} a.total_correct_proposer_stake refl (omega arith)
              fits.total_correct_proposer_stake,
          read_u64_le-field cs laid 38 {off = 336} a.total_approved_fact_stake refl (omega arith)
              fits.total_approved_fact_stake,
          read_u64_le-field cs laid 39 {off = 344} a.reward_pool refl (omega arith)
              fits.reward_pool,
          read_u64_le-field cs laid 40 {off = 352} a.reward_emission refl (omega arith)
              fits.reward_emission,
          read_u64_le-field cs laid 41 {off = 360} a.min_stake refl (omega arith) fits.min_stake,
        )
        (ap₂ (λ t q. ok (record a { account_type = t; phase = q })) (sym fits.tagged)
          (sym fits.phase))
