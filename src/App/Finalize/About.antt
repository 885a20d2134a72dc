-- ===== src/App/Finalize/About.antt =====
-- The cranks that are built are about the oracle that was passed.
use kassandra.Base.{ℕ, ◌≡◌, arith, List, [], ◌∷◌, Option, some, ok, >>=-eq-ok}
use kassandra.Platform.{Platform}
use kassandra.Instructions.Payload.{Instruction, Input, ProgramIds, program_or_default, addr}
use kassandra.Instructions.Pda.{Pda, oracle_pda}
use kassandra.Instructions.Lifecycle.{
  FinalizeProposalsArgs, AdvancePhaseArgs, finalize_proposals, advance_phase,
}
use kassandra.Instructions.Dispute.{
  FinalizeAiClaimsArgs, finalize_facts, finalize_ai_claims, finalize_oracle,
}
use kassandra.Markets.Keys.{account_at}
use kassandra.App.Finalize.{BuildFinalizeFactsArgs, BuildFinalizeOracleArgs, resolve_oracle_nonce}
use kassandra.App.Finalize.Nonce.{resolve_oracle_nonce_least}

module _ (p : Platform) where
  pub finalize_proposals_about :
      (ids : ProgramIds p) (args : FinalizeProposalsArgs p.Address p.Text) (target : p.Address)
      (ix : Instruction p.Address)
      → addr p args.oracle ≡ ok target
      → finalize_proposals p ids args ≡ ok ix
      → account_at (ix ∷ []) 0 0 ≡ some target
  unfolding finalize_proposals
  finalize_proposals_about ids args target ix e made = ground arith

  pub advance_phase_about :
      (ids : ProgramIds p) (args : AdvancePhaseArgs p.Address p.Text) (target : p.Address)
      (ix : Instruction p.Address)
      → addr p args.oracle ≡ ok target
      → advance_phase p ids args ≡ ok ix
      → account_at (ix ∷ []) 0 0 ≡ some target
  unfolding advance_phase
  advance_phase_about ids args target ix e made = ground arith

  pub finalize_ai_claims_about :
      (ids : ProgramIds p) (args : FinalizeAiClaimsArgs p.Address p.Text) (target : p.Address)
      (ix : Instruction p.Address)
      → addr p args.oracle ≡ ok target
      → finalize_ai_claims p ids args ≡ ok ix
      → account_at (ix ∷ []) 0 0 ≡ some target
  unfolding finalize_ai_claims
  finalize_ai_claims_about ids args target ix e made = ground arith

  module _ (ids : ProgramIds p)
      (injective : (a b : p.Address) → p.to_base58 a ≡ p.to_base58 b → a ≡ b) where
    -- The address that the scanned nonce derives is that of the oracle.
    scanned :
        (named : Input p) (max_nonce : Option ℕ) (program_id : Option p.Address)
        (target : p.Address) (n : ℕ) (derived : Pda p.Address)
        → addr p named ≡ ok target
        → resolve_oracle_nonce p ids named max_nonce program_id ≡ ok n
        → oracle_pda p n (program_or_default p ids program_id) ≡ ok derived
        → derived.address ≡ target
    scanned named max_nonce program_id target n derived e h d =
        let least = resolve_oracle_nonce_least p ids program_id target named max_nonce e n h in
        injective derived.address target ((p.same_text_iff _ _).0 (ground (arith, least, d)))

    pub finalize_oracle_about :
        (args : BuildFinalizeOracleArgs p) (target : p.Address) (n : ℕ) (tail : List (Input p))
        (ix : Instruction p.Address)
        → addr p args.oracle ≡ ok target
        → resolve_oracle_nonce p ids args.oracle args.max_nonce args.program_id ≡ ok n
        → finalize_oracle p ids (record {
          nonce = n;
          kass_mint = args.kass_mint;
          proposers = tail;
          program_id = args.program_id;
        })
          ≡ ok ix
        → account_at (ix ∷ []) 0 0 ≡ some target
    unfolding finalize_oracle
    finalize_oracle_about args target n tail ix e h made =
        let (derived, d, h1) =
          >>=-eq-ok (oracle_pda p n (program_or_default p ids args.program_id)) _ made in
        let same = scanned args.oracle args.max_nonce args.program_id target n derived e h d in
        ground (arith, same)

    pub finalize_facts_about :
        (args : BuildFinalizeFactsArgs p) (target : p.Address) (n : ℕ) (tail : List (Input p))
        (ix : Instruction p.Address)
        → addr p args.oracle ≡ ok target
        → resolve_oracle_nonce p ids args.oracle args.max_nonce args.program_id ≡ ok n
        → finalize_facts p ids (record {
          nonce = n;
          kass_mint = args.kass_mint;
          tail = tail;
          program_id = args.program_id;
        })
          ≡ ok ix
        → account_at (ix ∷ []) 0 0 ≡ some target
    unfolding finalize_facts
    finalize_facts_about args target n tail ix e h made =
        let (derived, d, h1) =
          >>=-eq-ok (oracle_pda p n (program_or_default p ids args.program_id)) _ made in
        let same = scanned args.oracle args.max_nonce args.program_id target n derived e h d in
        ground (arith, same)
