-- ===== src/App/Finalize.antt =====
-- app/src/data/actions/finalize.ts, up to the builders: the cranks that move an oracle on.
pub mod Nonce
pub mod About
pub mod Crank
use Prim.Native.String.{String}
use kassandra.Base.{
  ℕ, zero, suc, List, [], ◌∷◌, Bool, true, false, Option, none, some, Result, ok, err, ltb, length,
  if◌then◌else◌, map, ◌>>=◌, ◌>>◌, guard, empty_tail, nonce_unresolved,
}
use kassandra.Platform.{Platform}
use kassandra.Instructions.Payload.{
  Instruction, Input, AddressInput, address, ProgramIds, program_or_default, addr,
}
use kassandra.Instructions.Pda.{oracle_pda}
use kassandra.Instructions.Lifecycle.{finalize_proposals, advance_phase}
use kassandra.Instructions.Dispute.{finalize_facts, finalize_ai_claims, finalize_oracle}

abbrev pub max_legacy_tail : ℕ
max_legacy_tail = 24

abbrev pub default_max_nonce_scan : ℕ
default_max_nonce_scan = 4096

pub record FinalizeAction (p : Platform) : Type 0 where
  pub ixs : List (Instruction p.Address)
  pub needs_alt : Bool
  pub alt_addresses : List p.Address

pub record BuildFinalizeProposalsArgs (p : Platform) : Type 0 where
  pub oracle : Input p
  pub proposers : List (Input p)
  pub program_id : Option p.Address

pub record BuildAdvancePhaseArgs (p : Platform) : Type 0 where
  pub oracle : Input p
  pub program_id : Option p.Address

pub record BuildFinalizeFactsArgs (p : Platform) : Type 0 where
  pub oracle : Input p
  pub kass_mint : Input p
  pub facts : List (Input p)
  pub oracle_nonce : Option ℕ
  pub max_nonce : Option ℕ
  pub program_id : Option p.Address

pub record BuildFinalizeAiClaimsArgs (p : Platform) : Type 0 where
  pub oracle : Input p
  pub proposers : List (Input p)
  pub program_id : Option p.Address

pub record BuildFinalizeOracleArgs (p : Platform) : Type 0 where
  pub oracle : Input p
  pub kass_mint : Input p
  pub proposers : List (Input p)
  pub oracle_nonce : Option ℕ
  pub max_nonce : Option ℕ
  pub program_id : Option p.Address

module _ (p : Platform) (ids : ProgramIds p) where
  -- `ixs: [ix], ...altDecision(tail)`.
  unfoldable pub alt_decision : Instruction p.Address → List p.Address → FinalizeAction p
  alt_decision ix tail =
      let needs_alt = ltb max_legacy_tail (length tail) in
      record {
        ixs = ix ∷ [];
        needs_alt = needs_alt;
        alt_addresses = if needs_alt then tail else [];
      }

  abbrev pub legacy : Instruction p.Address → FinalizeAction p
  legacy ix = record { ixs = ix ∷ []; needs_alt = false; alt_addresses = [] }

  -- `tail.map(addr)`.
  unfoldable pub addrs : List (Input p) → Result (List p.Address)
  addrs [] = ok []
  addrs (a ∷ more) = do first ← addr p a; rest ← addrs more; ok (first ∷ rest)

  unfoldable pub require_tail : String → List (Input p) → Result (List p.Address)
  require_tail field [] = err (empty_tail field)
  require_tail field (a ∷ more) = addrs (a ∷ more)

  -- The rounds of the scan from `n` on, with `left` to go; `bound` is the last nonce.
  unfoldable pub scan_nonces : p.Address → p.Text → ℕ → ℕ → ℕ → Result ℕ
  scan_nonces program_id target bound n zero = err (nonce_unresolved bound)
  scan_nonces program_id target bound n (suc left) =
      let later = scan_nonces program_id target bound (suc n) left in
      oracle_pda p n program_id >>= λ derived.
      if p.same_text (p.to_base58 derived.address) target then ok n else later

  abbrev pub or_default_scan : Option ℕ → ℕ
  or_default_scan none = default_max_nonce_scan
  or_default_scan (some n) = n

  unfoldable pub resolve_oracle_nonce : Input p → Option ℕ → Option p.Address → Result ℕ
  resolve_oracle_nonce oracle max_nonce program_id = do
    target ← addr p oracle
    let bound = or_default_scan max_nonce
    scan_nonces (program_or_default p ids program_id) (p.to_base58 target) bound 0 (suc bound)

  -- `args.oracleNonce ?? (await resolveOracleNonce(…))`.
  abbrev pub nonce_or_scan : Option ℕ → Input p → Option ℕ → Option p.Address → Result ℕ
  nonce_or_scan none oracle max_nonce program_id = resolve_oracle_nonce oracle max_nonce program_id
  nonce_or_scan (some nonce) oracle max_nonce program_id = ok nonce

  unfoldable pub build_finalize_proposals_ixs :
      BuildFinalizeProposalsArgs p → Result (FinalizeAction p)
  build_finalize_proposals_ixs args = do
    proposers ← require_tail "proposers" args.proposers
    ix ← finalize_proposals p ids (record {
      oracle = args.oracle;
      proposers = map address proposers;
      program_id = args.program_id;
    })
    ok (alt_decision ix proposers)

  unfoldable pub build_advance_phase_ixs : BuildAdvancePhaseArgs p → Result (FinalizeAction p)
  build_advance_phase_ixs args = do
    ix ← advance_phase p ids (record { oracle = args.oracle; program_id = args.program_id })
    ok (legacy ix)

  unfoldable pub build_finalize_facts_ixs : BuildFinalizeFactsArgs p → Result (FinalizeAction p)
  build_finalize_facts_ixs args = do
    tail ← require_tail "facts" args.facts
    nonce ← nonce_or_scan args.oracle_nonce args.oracle args.max_nonce args.program_id
    ix ← finalize_facts p ids (record {
      nonce = nonce;
      kass_mint = args.kass_mint;
      tail = map address tail;
      program_id = args.program_id;
    })
    ok (legacy ix)

  unfoldable pub build_finalize_ai_claims_ixs :
      BuildFinalizeAiClaimsArgs p → Result (FinalizeAction p)
  build_finalize_ai_claims_ixs args = do
    proposers ← require_tail "proposers" args.proposers
    ix ← finalize_ai_claims p ids (record {
      oracle = args.oracle;
      proposers = map address proposers;
      program_id = args.program_id;
    })
    ok (legacy ix)

  unfoldable pub build_finalize_oracle_ixs : BuildFinalizeOracleArgs p → Result (FinalizeAction p)
  build_finalize_oracle_ixs args = do
    proposers ← require_tail "proposers" args.proposers
    nonce ← nonce_or_scan args.oracle_nonce args.oracle args.max_nonce args.program_id
    ix ← finalize_oracle p ids (record {
      nonce = nonce;
      kass_mint = args.kass_mint;
      proposers = map address proposers;
      program_id = args.program_id;
    })
    ok (alt_decision ix proposers)
