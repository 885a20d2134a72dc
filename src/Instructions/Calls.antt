-- ===== src/Instructions/Calls.antt =====
-- The builders side by side, as calls: what they promise about program, discriminant and signers.
use kassandra.Base.{List, [], ◌∷◌, ◌≡◌, Option, none, some, Result, ok, if◌then◌else◌}
use kassandra.Platform.{Platform}
use kassandra.Instructions.Payload.{Ix, AccountMeta, Instruction, ProgramIds, Input, addr}
use kassandra.Instructions.Lifecycle
use kassandra.Instructions.Lifecycle.{
  InitProtocolArgs, CreateOracleArgs, WriteOracleMetaArgs, ProposeArgs, FinalizeProposalsArgs,
  AdvancePhaseArgs,
}
use kassandra.Instructions.Governance
use kassandra.Instructions.Governance.{
  SetGovernanceArgs, SetConfigArgs, ResolveDeadendArgs, KassPriceArgs,
}
use kassandra.Instructions.Dispute
use kassandra.Instructions.Dispute.{
  SubmitFactArgs, VoteFactArgs, FinalizeFactsArgs, SubmitAiClaimArgs, FinalizeAiClaimsArgs,
  FinalizeOracleArgs,
}
use kassandra.Instructions.Settlement
use kassandra.Instructions.Settlement.{
  ClaimProposerArgs, ClaimFactArgs, ClaimFactVoteArgs, CloseAiClaimArgs, CloseMarketArgs,
  SweepOracleArgs,
}
use kassandra.Instructions.Challenge
use kassandra.Instructions.Challenge.{OpenChallengeArgs, SettleChallengeArgs}

-- A call of one of the 24 builders.
pub data Call (Address Text : Type 0) : Type 0 where
  init_protocol : InitProtocolArgs Address Text → Call Address Text
  create_oracle : CreateOracleArgs Address Text → Call Address Text
  write_oracle_meta : WriteOracleMetaArgs Address Text → Call Address Text
  propose : ProposeArgs Address Text → Call Address Text
  finalize_proposals : FinalizeProposalsArgs Address Text → Call Address Text
  advance_phase : AdvancePhaseArgs Address Text → Call Address Text
  set_governance : SetGovernanceArgs Address Text → Call Address Text
  set_config : SetConfigArgs Address Text → Call Address Text
  resolve_deadend : ResolveDeadendArgs Address Text → Call Address Text
  kass_price : KassPriceArgs Address Text → Call Address Text
  submit_fact : SubmitFactArgs Address Text → Call Address Text
  vote_fact : VoteFactArgs Address Text → Call Address Text
  finalize_facts : FinalizeFactsArgs Address Text → Call Address Text
  submit_ai_claim : SubmitAiClaimArgs Address Text → Call Address Text
  finalize_ai_claims : FinalizeAiClaimsArgs Address Text → Call Address Text
  finalize_oracle : FinalizeOracleArgs Address Text → Call Address Text
  claim_proposer : ClaimProposerArgs Address Text → Call Address Text
  claim_fact : ClaimFactArgs Address Text → Call Address Text
  claim_fact_vote : ClaimFactVoteArgs Address Text → Call Address Text
  close_ai_claim : CloseAiClaimArgs Address Text → Call Address Text
  close_market : CloseMarketArgs Address Text → Call Address Text
  sweep_oracle : SweepOracleArgs Address Text → Call Address Text
  open_challenge : OpenChallengeArgs Address Text → Call Address Text
  settle_challenge : SettleChallengeArgs Address Text → Call Address Text

-- The accounts that an instruction asks to sign.
abbrev pub signing : {Address : Type 0} → List (AccountMeta Address) → List Address
signing [] = []
signing (k ∷ ks) = if k.is_signer then k.pubkey ∷ signing ks else signing ks

abbrev pub ix_of : {Address Text : Type 0} → Call Address Text → Ix
ix_of (Call.init_protocol args) = Ix.init_protocol
ix_of (Call.create_oracle args) = Ix.create_oracle
ix_of (Call.write_oracle_meta args) = Ix.write_oracle_meta
ix_of (Call.propose args) = Ix.propose
ix_of (Call.finalize_proposals args) = Ix.finalize_proposals
ix_of (Call.advance_phase args) = Ix.advance_phase
ix_of (Call.set_governance args) = Ix.set_governance
ix_of (Call.set_config args) = Ix.set_config
ix_of (Call.resolve_deadend args) = Ix.resolve_deadend
ix_of (Call.kass_price args) = Ix.kass_price
ix_of (Call.submit_fact args) = Ix.submit_fact
ix_of (Call.vote_fact args) = Ix.vote_fact
ix_of (Call.finalize_facts args) = Ix.finalize_facts
ix_of (Call.submit_ai_claim args) = Ix.submit_ai_claim
ix_of (Call.finalize_ai_claims args) = Ix.finalize_ai_claims
ix_of (Call.finalize_oracle args) = Ix.finalize_oracle
ix_of (Call.claim_proposer args) = Ix.claim_proposer
ix_of (Call.claim_fact args) = Ix.claim_fact
ix_of (Call.claim_fact_vote args) = Ix.claim_fact_vote
ix_of (Call.close_ai_claim args) = Ix.close_ai_claim
ix_of (Call.close_market args) = Ix.close_market
ix_of (Call.sweep_oracle args) = Ix.sweep_oracle
ix_of (Call.open_challenge args) = Ix.open_challenge
ix_of (Call.settle_challenge args) = Ix.settle_challenge

module _ (p : Platform) where
  abbrev pub program_of : Call p.Address p.Text → Option p.Address
  program_of (Call.init_protocol args) = args.program_id
  program_of (Call.create_oracle args) = args.program_id
  program_of (Call.write_oracle_meta args) = args.program_id
  program_of (Call.propose args) = args.program_id
  program_of (Call.finalize_proposals args) = args.program_id
  program_of (Call.advance_phase args) = args.program_id
  program_of (Call.set_governance args) = args.program_id
  program_of (Call.set_config args) = args.program_id
  program_of (Call.resolve_deadend args) = args.program_id
  program_of (Call.kass_price args) = args.program_id
  program_of (Call.submit_fact args) = args.program_id
  program_of (Call.vote_fact args) = args.program_id
  program_of (Call.finalize_facts args) = args.program_id
  program_of (Call.submit_ai_claim args) = args.program_id
  program_of (Call.finalize_ai_claims args) = args.program_id
  program_of (Call.finalize_oracle args) = args.program_id
  program_of (Call.claim_proposer args) = args.program_id
  program_of (Call.claim_fact args) = args.program_id
  program_of (Call.claim_fact_vote args) = args.program_id
  program_of (Call.close_ai_claim args) = args.program_id
  program_of (Call.close_market args) = args.program_id
  program_of (Call.sweep_oracle args) = args.program_id
  program_of (Call.open_challenge args) = args.program_id
  program_of (Call.settle_challenge args) = args.program_id

  -- The argument that names the signer. A call without one is a crank that anybody may send.
  abbrev pub authority_of : Call p.Address p.Text → Option (Input p)
  authority_of (Call.init_protocol args) = some args.admin
  authority_of (Call.create_oracle args) = some args.creator
  authority_of (Call.write_oracle_meta args) = some args.creator
  authority_of (Call.propose args) = some args.authority
  authority_of (Call.finalize_proposals args) = none
  authority_of (Call.advance_phase args) = none
  authority_of (Call.set_governance args) = some args.authority
  authority_of (Call.set_config args) = some args.authority
  authority_of (Call.resolve_deadend args) = some args.authority
  authority_of (Call.kass_price args) = none
  authority_of (Call.submit_fact args) = some args.submitter
  authority_of (Call.vote_fact args) = some args.voter
  authority_of (Call.finalize_facts args) = none
  authority_of (Call.submit_ai_claim args) = some args.authority
  authority_of (Call.finalize_ai_claims args) = none
  authority_of (Call.finalize_oracle args) = none
  authority_of (Call.claim_proposer args) = none
  authority_of (Call.claim_fact args) = none
  authority_of (Call.claim_fact_vote args) = none
  authority_of (Call.close_ai_claim args) = none
  authority_of (Call.close_market args) = none
  authority_of (Call.sweep_oracle args) = none
  authority_of (Call.open_challenge args) = some args.challenger
  authority_of (Call.settle_challenge args) = none

  abbrev pub SignedBy : Option (Input p) → List p.Address → Type 0
  SignedBy none signers = signers ≡ []
  SignedBy (some who) signers = (a : p.Address) × (addr p who ≡ ok a) × (signers ≡ a ∷ [])

module _ (p : Platform) (ids : ProgramIds p) where
  abbrev pub build : Call p.Address p.Text → Result (Instruction p.Address)
  build (Call.init_protocol args) = Lifecycle.init_protocol p ids args
  build (Call.create_oracle args) = Lifecycle.create_oracle p ids args
  build (Call.write_oracle_meta args) = Lifecycle.write_oracle_meta p ids args
  build (Call.propose args) = Lifecycle.propose p ids args
  build (Call.finalize_proposals args) = Lifecycle.finalize_proposals p ids args
  build (Call.advance_phase args) = Lifecycle.advance_phase p ids args
  build (Call.set_governance args) = Governance.set_governance p ids args
  build (Call.set_config args) = Governance.set_config p ids args
  build (Call.resolve_deadend args) = Governance.resolve_deadend p ids args
  build (Call.kass_price args) = Governance.kass_price p ids args
  build (Call.submit_fact args) = Dispute.submit_fact p ids args
  build (Call.vote_fact args) = Dispute.vote_fact p ids args
  build (Call.finalize_facts args) = Dispute.finalize_facts p ids args
  build (Call.submit_ai_claim args) = Dispute.submit_ai_claim p ids args
  build (Call.finalize_ai_claims args) = Dispute.finalize_ai_claims p ids args
  build (Call.finalize_oracle args) = Dispute.finalize_oracle p ids args
  build (Call.claim_proposer args) = Settlement.claim_proposer p ids args
  build (Call.claim_fact args) = Settlement.claim_fact p ids args
  build (Call.claim_fact_vote args) = Settlement.claim_fact_vote p ids args
  build (Call.close_ai_claim args) = Settlement.close_ai_claim p ids args
  build (Call.close_market args) = Settlement.close_market p ids args
  build (Call.sweep_oracle args) = Settlement.sweep_oracle p ids args
  build (Call.open_challenge args) = Challenge.open_challenge p ids args
  build (Call.settle_challenge args) = Challenge.settle_challenge p ids args
