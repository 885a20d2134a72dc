-- ===== src/Wire/Config.antt =====
-- The configuration that the SDK encodes is the one that the program parses.
use kassandra.Base.{
  ℕ, ◌^◌, ◌<◌, ◌≡◌, refl, ap, ◌∙◌, arith, List, [], ◌∷◌, concat, append-nil, true, ok, length, drop,
  ◌==◌,
}
use kassandra.Base.Int.{IsI64}
use kassandra.Platform.{Platform}
use kassandra.Bytes.{le, u64_le, i64_le}
use kassandra.Bytes.RoundTrip.{concat_bytes-concat}
use kassandra.Accounts.Layout.{read_u64_le-field, read_i64_le-field}
use kassandra.Instructions.Payload.{Ix, Instruction, ProgramIds, with_disc}
use kassandra.Instructions.Governance.{
  SetConfigParams, SetConfigArgs, config_chunks, encode_set_config_params, set_config,
}
use kassandra.Instructions.Promises.{with_disc_lem}
use kassandra.Wire.{u64_at, i64_at, parse_set_config}

-- The ranges of the parameters' types.
pub record FitsConfig (c : SetConfigParams) : Type 0 where
  pub emission_num : c.emission_num < 2 ^ 64
  pub emission_den : c.emission_den < 2 ^ 64
  pub total_supply_cap : c.total_supply_cap < 2 ^ 64
  pub fee_ema_halflife : IsI64 c.fee_ema_halflife
  pub fee_per_ema_unit : c.fee_per_ema_unit < 2 ^ 64
  pub fee_ema_increment : c.fee_ema_increment < 2 ^ 64
  pub threshold_num : c.threshold_num < 2 ^ 64
  pub threshold_den : c.threshold_den < 2 ^ 64
  pub market_threshold_num : c.market_threshold_num < 2 ^ 64
  pub market_threshold_den : c.market_threshold_den < 2 ^ 64
  pub flip_slash_num : c.flip_slash_num < 2 ^ 64
  pub flip_slash_den : c.flip_slash_den < 2 ^ 64
  pub phase_window : IsI64 c.phase_window
  pub proposal_window : IsI64 c.proposal_window
  pub fact_vote_slash_num : c.fact_vote_slash_num < 2 ^ 64
  pub fact_vote_slash_den : c.fact_vote_slash_den < 2 ^ 64
  pub reward_proposer_weight : c.reward_proposer_weight < 2 ^ 64
  pub reward_fact_weight : c.reward_fact_weight < 2 ^ 64
  pub challenge_fail_usdc_fee_num : c.challenge_fail_usdc_fee_num < 2 ^ 64
  pub challenge_fail_usdc_fee_den : c.challenge_fail_usdc_fee_den < 2 ^ 64
  pub challenge_success_kass_fee_num : c.challenge_success_kass_fee_num < 2 ^ 64
  pub challenge_success_kass_fee_den : c.challenge_success_kass_fee_den < 2 ^ 64
  pub stake_floor_ema_threshold : c.stake_floor_ema_threshold < 2 ^ 64
  pub stake_floor_ema_cap : c.stake_floor_ema_cap < 2 ^ 64
  pub stake_floor_max : c.stake_floor_max < 2 ^ 64

module _ (c : SetConfigParams) (raw : List ℕ) (laid : raw ≡ concat (config_chunks c)) where
  size-config : (length raw == 200) ≡ true
  unfolding u64_le i64_le le
  size-config = ap (λ r. length r == 200) laid

  parse_set_config-encode : FitsConfig c → parse_set_config raw ≡ ok c
  unfolding parse_set_config u64_at i64_at u64_le i64_le le
  parse_set_config-encode fits =
      let cs = config_chunks c in
      rw (
        size-config,
        read_u64_le-field cs laid 0 {off = 0} c.emission_num refl refl fits.emission_num,
        read_u64_le-field cs laid 1 {off = 8} c.emission_den refl refl fits.emission_den,
        read_u64_le-field cs laid 2 {off = 16} c.total_supply_cap refl refl fits.total_supply_cap,
        read_i64_le-field cs laid 3 {off = 24} c.fee_ema_halflife refl refl fits.fee_ema_halflife,
        read_u64_le-field cs laid 4 {off = 32} c.fee_per_ema_unit refl refl fits.fee_per_ema_unit,
        read_u64_le-field cs laid 5 {off = 40} c.fee_ema_increment refl refl fits.fee_ema_increment,
        read_u64_le-field cs laid 6 {off = 48} c.threshold_num refl refl fits.threshold_num,
        read_u64_le-field cs laid 7 {off = 56} c.threshold_den refl refl fits.threshold_den,
        read_u64_le-field cs laid 8 {off = 64} c.market_threshold_num refl refl
            fits.market_threshold_num,
        read_u64_le-field cs laid 9 {off = 72} c.market_threshold_den refl refl
            fits.market_threshold_den,
        read_u64_le-field cs laid 10 {off = 80} c.flip_slash_num refl refl fits.flip_slash_num,
        read_u64_le-field cs laid 11 {off = 88} c.flip_slash_den refl refl fits.flip_slash_den,
        read_i64_le-field cs laid 12 {off = 96} c.phase_window refl refl fits.phase_window,
        read_i64_le-field cs laid 13 {off = 104} c.proposal_window refl refl fits.proposal_window,
        read_u64_le-field cs laid 14 {off = 112} c.fact_vote_slash_num refl refl
            fits.fact_vote_slash_num,
        read_u64_le-field cs laid 15 {off = 120} c.fact_vote_slash_den refl refl
            fits.fact_vote_slash_den,
        read_u64_le-field cs laid 16 {off = 128} c.reward_proposer_weight refl refl
            fits.reward_proposer_weight,
        read_u64_le-field cs laid 17 {off = 136} c.reward_fact_weight refl refl
            fits.reward_fact_weight,
        read_u64_le-field cs laid 18 {off = 144} c.challenge_fail_usdc_fee_num refl refl
            fits.challenge_fail_usdc_fee_num,
        read_u64_le-field cs laid 19 {off = 152} c.challenge_fail_usdc_fee_den refl refl
            fits.challenge_fail_usdc_fee_den,
        read_u64_le-field cs laid 20 {off = 160} c.challenge_success_kass_fee_num refl refl
            fits.challenge_success_kass_fee_num,
        read_u64_le-field cs laid 21 {off = 168} c.challenge_success_kass_fee_den refl refl
            fits.challenge_success_kass_fee_den,
        read_u64_le-field cs laid 22 {off = 176} c.stake_floor_ema_threshold refl refl
            fits.stake_floor_ema_threshold,
        read_u64_le-field cs laid 23 {off = 184} c.stake_floor_ema_cap refl refl
            fits.stake_floor_ema_cap,
        read_u64_le-field cs laid 24 {off = 192} c.stake_floor_max refl refl fits.stake_floor_max,
      )

sent :
    (p : Platform) (ids : ProgramIds p) (args : SetConfigArgs p.Address p.Text)
    (i : Instruction p.Address)
    → set_config p ids args ≡ ok i
    → i.payload ≡ 14 ∷ concat (config_chunks args.params)
unfolding set_config encode_set_config_params
sent p ids args i built =
    let encoded = encode_set_config_params args.params in
    let body : i.payload ≡ with_disc Ix.set_config (encoded ∷ []) = ground arith in
    body
    ∙ with_disc_lem Ix.set_config (encoded ∷ [])
    ∙ ap (λ d. 14 ∷ d) (append-nil encoded ∙ concat_bytes-concat (config_chunks args.params))

-- The program parses the data of `set_config` to the very parameters that the caller gave, if each
-- is in the range of its type.
pub parse-set_config :
    (p : Platform) (ids : ProgramIds p) (args : SetConfigArgs p.Address p.Text)
    (i : Instruction p.Address)
    → set_config p ids args ≡ ok i
    → FitsConfig args.params
    → parse_set_config (drop 1 i.payload) ≡ ok args.params
parse-set_config p ids args i built fits =
    parse_set_config-encode args.params _ (ap (drop 1) (sent p ids args i built)) fits
