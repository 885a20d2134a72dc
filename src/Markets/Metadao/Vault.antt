-- ===== src/Markets/Metadao/Vault.antt =====
-- sdks/markets/ts/src/metadao/vault.ts.
use kassandra.Base.{
  ℕ, zero, suc, List, [], ◌∷◌, ◌++◌, true, false, Option, none, some, Result, ok, ◌>>=◌,
}
use kassandra.Platform.{Platform}
use kassandra.Bytes.{u8, u32_le, u64_le, concat_bytes}
use kassandra.Instructions.Payload.{Instruction, AddressInput, address, Meta, addr, w, ro, metas}
use kassandra.Markets.Payload.{MarketIds}
use kassandra.Markets.Metadao.Pda.{
  question_pda, conditional_vault_pda, conditional_token_mint_pda, vault_event_authority_pda, ata,
}

abbrev disc_initialize_question : List ℕ
disc_initialize_question = 0xf5 ∷ 0x97 ∷ 0x6a ∷ 0xbc ∷ 0x58 ∷ 0x2c ∷ 0x41 ∷ 0xd4 ∷ []

abbrev disc_initialize_conditional_vault : List ℕ
disc_initialize_conditional_vault = 0x25 ∷ 0x58 ∷ 0xfa ∷ 0xd4 ∷ 0x36 ∷ 0xda ∷ 0xe3 ∷ 0xaf ∷ []

abbrev pub disc_split_tokens : List ℕ
disc_split_tokens = 0x4f ∷ 0xc3 ∷ 0x74 ∷ 0x00 ∷ 0x8c ∷ 0xb0 ∷ 0x49 ∷ 0xb3 ∷ []

abbrev pub disc_merge_tokens : List ℕ
disc_merge_tokens = 0xe2 ∷ 0x59 ∷ 0xfb ∷ 0x79 ∷ 0xe1 ∷ 0x82 ∷ 0xb4 ∷ 0x0e ∷ []

abbrev disc_redeem_tokens : List ℕ
disc_redeem_tokens = 0xf6 ∷ 0x62 ∷ 0x86 ∷ 0x29 ∷ 0x98 ∷ 0x21 ∷ 0x78 ∷ 0x45 ∷ []

abbrev disc_resolve_question : List ℕ
disc_resolve_question = 0x34 ∷ 0x20 ∷ 0xe0 ∷ 0xb3 ∷ 0xb4 ∷ 0x08 ∷ 0x00 ∷ 0xf6 ∷ []

-- `a.numOutcomes ?? 2`.
abbrev pub or_two : Option ℕ → ℕ
or_two none = 2
or_two (some n) = n

pub record InitializeQuestionArgs (Address Text : Type 0) : Type 0 where
  pub payer : AddressInput Address Text
  pub question_id : List ℕ
  pub oracle : AddressInput Address Text
  pub num_outcomes : ℕ

pub record InitializeConditionalVaultArgs (Address Text : Type 0) : Type 0 where
  pub payer : AddressInput Address Text
  pub question : AddressInput Address Text
  pub underlying_mint : AddressInput Address Text
  pub num_outcomes : Option ℕ

pub record InteractWithVaultArgs (Address Text : Type 0) : Type 0 where
  pub question : AddressInput Address Text
  pub vault : AddressInput Address Text
  pub vault_underlying_ata : AddressInput Address Text
  pub authority : AddressInput Address Text
  pub user_underlying_ata : AddressInput Address Text
  pub conditional_mints : List (AddressInput Address Text)
  pub user_conditional_atas : List (AddressInput Address Text)

pub record ResolveQuestionArgs (Address Text : Type 0) : Type 0 where
  pub question : AddressInput Address Text
  pub oracle : AddressInput Address Text
  pub payout_numerators : ℕ × ℕ

module _ (p : Platform) (ids : MarketIds p) where
  -- The loop over the outcomes, from outcome `i` on, with `left` to go.
  unfoldable pub cond_mints_from : p.Address → ℕ → ℕ → Result (List (Meta p))
  cond_mints_from vault i zero = ok []
  cond_mints_from vault i (suc left) = do
    mint ← conditional_token_mint_pda p ids (address vault) i
    rest ← cond_mints_from vault (suc i) left
    ok (w p mint.address false ∷ rest)

  unfoldable pub initialize_question :
      InitializeQuestionArgs p.Address p.Text → Result (Instruction p.Address)
  initialize_question args = do
    question ← question_pda p ids args.question_id args.oracle args.num_outcomes
    event_authority ← vault_event_authority_pda p ids
    payer ← addr p args.payer
    oracle ← addr p args.oracle
    ok (record {
      program_id = ids.conditional_vault_id;
      keys =
          w p question.address false
          ∷ w p payer true
          ∷ ro p ids.system_program_id false
          ∷ ro p event_authority.address false
          ∷ ro p ids.conditional_vault_id false
          ∷ [];
      payload = concat_bytes (
          disc_initialize_question
          ∷ args.question_id
          ∷ p.to_bytes oracle
          ∷ u8 args.num_outcomes
          ∷ []);
    })

  unfoldable pub initialize_conditional_vault :
      InitializeConditionalVaultArgs p.Address p.Text → Result (Instruction p.Address)
  initialize_conditional_vault args = do
    vault_pda ← conditional_vault_pda p ids args.question args.underlying_mint
    let vault = vault_pda.address
    vault_underlying ← ata p ids (address vault) args.underlying_mint
    event_authority ← vault_event_authority_pda p ids
    cond_mints ← cond_mints_from vault 0 (or_two args.num_outcomes)
    question ← addr p args.question
    underlying_mint ← addr p args.underlying_mint
    payer ← addr p args.payer
    ok (record {
      program_id = ids.conditional_vault_id;
      keys =
          w p vault false
          ∷ ro p question false
          ∷ ro p underlying_mint false
          ∷ w p vault_underlying false
          ∷ w p payer true
          ∷ ro p ids.token_program_id false
          ∷ ro p ids.ata_program_id false
          ∷ ro p ids.system_program_id false
          ∷ ro p event_authority.address false
          ∷ ro p ids.conditional_vault_id false
          ∷ cond_mints;
      payload = disc_initialize_conditional_vault;
    })

  unfoldable pub interact_with_vault :
      List ℕ → InteractWithVaultArgs p.Address p.Text → Result (Instruction p.Address)
  interact_with_vault disc args = do
    event_authority ← vault_event_authority_pda p ids
    question ← addr p args.question
    vault ← addr p args.vault
    vault_underlying_ata ← addr p args.vault_underlying_ata
    authority ← addr p args.authority
    user_underlying_ata ← addr p args.user_underlying_ata
    mints ← metas p (λ m. w p m false) args.conditional_mints
    atas ← metas p (λ u. w p u false) args.user_conditional_atas
    ok (record {
      program_id = ids.conditional_vault_id;
      keys =
          ro p question false
          ∷ w p vault false
          ∷ w p vault_underlying_ata false
          ∷ ro p authority true
          ∷ w p user_underlying_ata false
          ∷ ro p ids.token_program_id false
          ∷ ro p event_authority.address false
          ∷ ro p ids.conditional_vault_id false
          ∷ (mints ++ atas);
      payload = disc;
    })

  unfoldable pub split_tokens :
      InteractWithVaultArgs p.Address p.Text → ℕ → Result (Instruction p.Address)
  split_tokens args amount =
      interact_with_vault (concat_bytes (disc_split_tokens ∷ u64_le amount ∷ [])) args

  unfoldable pub merge_tokens :
      InteractWithVaultArgs p.Address p.Text → ℕ → Result (Instruction p.Address)
  merge_tokens args amount =
      interact_with_vault (concat_bytes (disc_merge_tokens ∷ u64_le amount ∷ [])) args

  unfoldable pub redeem_tokens :
      InteractWithVaultArgs p.Address p.Text → Result (Instruction p.Address)
  redeem_tokens args = interact_with_vault disc_redeem_tokens args

  unfoldable pub resolve_question :
      ResolveQuestionArgs p.Address p.Text → Result (Instruction p.Address)
  resolve_question args = do
    event_authority ← vault_event_authority_pda p ids
    question ← addr p args.question
    oracle ← addr p args.oracle
    ok (record {
      program_id = ids.conditional_vault_id;
      keys =
          w p question false
          ∷ ro p oracle true
          ∷ ro p event_authority.address false
          ∷ ro p ids.conditional_vault_id false
          ∷ [];
      payload = concat_bytes (
          disc_resolve_question
          ∷ u32_le 2
          ∷ u32_le args.payout_numerators.0
          ∷ u32_le args.payout_numerators.1
          ∷ []);
    })
