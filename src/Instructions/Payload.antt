-- ===== src/Instructions/Payload.antt =====
-- sdks/oracles/ts/src/instructions/payload.ts, and the discriminants `Ix` of constants.ts.
use kassandra.Base.{
  ℕ, List, [], ◌∷◌, Bool, true, false, Option, none, some, Result, ok, err, wrong_length, length,
  if◌then◌else◌, ◌==◌, ◌>>=◌,
}
use kassandra.Platform.{Platform}
use kassandra.Bytes.{u8, concat_bytes}

pub data Ix : Type 0 where
  submit_fact vote_fact finalize_facts submit_ai_claim open_challenge settle_challenge : Ix
  finalize_oracle advance_phase finalize_ai_claims init_protocol create_oracle propose : Ix
  finalize_proposals set_governance set_config resolve_deadend kass_price claim_proposer : Ix
  claim_fact claim_fact_vote close_ai_claim close_market sweep_oracle write_oracle_meta : Ix

-- The enum's numbers.
abbrev pub disc_of : Ix → ℕ
disc_of submit_fact = 0
disc_of vote_fact = 1
disc_of finalize_facts = 2
disc_of submit_ai_claim = 3
disc_of open_challenge = 4
disc_of settle_challenge = 5
disc_of finalize_oracle = 6
disc_of advance_phase = 7
disc_of finalize_ai_claims = 8
disc_of init_protocol = 9
disc_of create_oracle = 10
disc_of propose = 11
disc_of finalize_proposals = 12
disc_of set_governance = 13
disc_of set_config = 14
disc_of resolve_deadend = 15
disc_of kass_price = 16
disc_of claim_proposer = 17
disc_of claim_fact = 18
disc_of claim_fact_vote = 19
disc_of close_ai_claim = 20
disc_of close_market = 21
disc_of sweep_oracle = 22
disc_of write_oracle_meta = 23

-- `AccountMeta` and `TransactionInstruction` of web3.js, which are plain records.
pub record AccountMeta (Address : Type 0) : Type 0 where
  pub pubkey : Address
  pub is_signer : Bool
  pub is_writable : Bool

pub record Instruction (Address : Type 0) : Type 0 where
  pub program_id : Address
  pub keys : List (AccountMeta Address)
  pub payload : List ℕ

-- `AddressInput`: an `Address`, or its base58 text.
pub data AddressInput (Address Text : Type 0) : Type 0 where
  address : Address → AddressInput Address Text
  base58 : Text → AddressInput Address Text

-- The program ids that constants.ts names, as addresses.
pub record ProgramIds (p : Platform) : Type 0 where
  pub kassandra_program_id : p.Address
  pub system_program_id : p.Address
  pub token_program_id : p.Address
  pub ata_program_id : p.Address
  pub conditional_vault_id : p.Address

module _ (p : Platform) where
  abbrev pub Input : Type 0
  Input = AddressInput p.Address p.Text

  abbrev pub Meta : Type 0
  Meta = AccountMeta p.Address

  unfoldable pub addr : Input → Result p.Address
  addr (address a) = ok a
  addr (base58 t) = p.address_of_text t

  unfoldable pub pubkey_bytes : Input → Result (List ℕ)
  pubkey_bytes (address a) = ok (p.to_bytes a)
  pubkey_bytes (base58 t) = do a ← p.address_of_text t; ok (p.to_bytes a)

  -- A writable and a read-only account; the second argument is `isSigner`.
  abbrev pub w : p.Address → Bool → Meta
  w pubkey is_signer = record { pubkey = pubkey; is_signer = is_signer; is_writable = true }

  abbrev pub ro : p.Address → Bool → Meta
  ro pubkey is_signer = record { pubkey = pubkey; is_signer = is_signer; is_writable = false }

  -- `args.programId ?? KASSANDRA_PROGRAM_ID`
  abbrev pub program_or_default : ProgramIds p → Option p.Address → p.Address
  program_or_default ids none = ids.kassandra_program_id
  program_or_default ids (some a) = a

  -- `xs.map((k) => meta(addr(k)))`, which throws at the first input that does.
  unfoldable pub metas : (p.Address → Meta) → List Input → Result (List Meta)
  unfolding addr
  metas meta [] = ok []
  metas meta (k ∷ ks) = do a ← addr k; rest ← metas meta ks; ok (meta a ∷ rest)

-- A byte field of a fixed length.
unfoldable pub fixed_bytes : List ℕ → ℕ → Result (List ℕ)
fixed_bytes bytes len =
    if length bytes == len then ok bytes else err (wrong_length len (length bytes))

unfoldable pub with_disc : Ix → List (List ℕ) → List ℕ
unfolding u8 concat_bytes
with_disc disc payload = concat_bytes (u8 (disc_of disc) ∷ payload)
