-- ===== src/App/Finalize/Crank.antt =====
-- The five cranks side by side.
use Prim.Native.String.{String}
use kassandra.Base.{
  ℕ, suc, ◌≡◌, refl, sym, ap, ◌∙◌, arith, List, [], ◌∷◌, Bool, true, false, Option, none, some,
  Result, ok, ok-inj, ltb, length, map, All, >>=-eq-ok, Bool-cases, get_elem?, inl, inr,
}
use mathlib.Core.Path.{subst}
use kassandra.Platform.{Platform}
use kassandra.Instructions.Payload.{Ix, disc_of, Instruction, Input, address, ProgramIds, addr}
use kassandra.Instructions.Lifecycle.{finalize_proposals, advance_phase}
use kassandra.Instructions.Dispute.{finalize_facts, finalize_ai_claims, finalize_oracle}
use kassandra.Instructions.Calls.{Call, signing, ix_of, authority_of, SignedBy, build}
use kassandra.Instructions.Promises.{build_lem}
use kassandra.Markets.Keys.{account_at}
use kassandra.App.Finalize.{
  FinalizeAction, BuildFinalizeProposalsArgs, BuildAdvancePhaseArgs, BuildFinalizeFactsArgs,
  BuildFinalizeAiClaimsArgs, BuildFinalizeOracleArgs, alt_decision, require_tail, nonce_or_scan,
  addrs, legacy, build_finalize_proposals_ixs, build_advance_phase_ixs, build_finalize_facts_ixs,
  build_finalize_ai_claims_ixs, build_finalize_oracle_ixs,
}
use kassandra.App.Finalize.About.{
  finalize_proposals_about, advance_phase_about, finalize_facts_about, finalize_ai_claims_about,
  finalize_oracle_about,
}

pub data Crank (p : Platform) : Type 0 where
  proposals : BuildFinalizeProposalsArgs p → Crank p
  phase : BuildAdvancePhaseArgs p → Crank p
  facts : BuildFinalizeFactsArgs p → Crank p
  ai_claims : BuildFinalizeAiClaimsArgs p → Crank p
  oracle : BuildFinalizeOracleArgs p → Crank p

abbrev pub oracle_of : {p : Platform} → Crank p → Input p
oracle_of (proposals args) = args.oracle
oracle_of (phase args) = args.oracle
oracle_of (facts args) = args.oracle
oracle_of (ai_claims args) = args.oracle
oracle_of (oracle args) = args.oracle

-- The nonce that the caller passes; three of the five take none.
abbrev pub nonce_of : {p : Platform} → Crank p → Option ℕ
nonce_of (proposals args) = none
nonce_of (phase args) = none
nonce_of (facts args) = args.oracle_nonce
nonce_of (ai_claims args) = none
nonce_of (oracle args) = args.oracle_nonce

abbrev pub build_crank : (p : Platform) → ProgramIds p → Crank p → Result (FinalizeAction p)
build_crank p ids (proposals args) = build_finalize_proposals_ixs p ids args
build_crank p ids (phase args) = build_advance_phase_ixs p ids args
build_crank p ids (facts args) = build_finalize_facts_ixs p ids args
build_crank p ids (ai_claims args) = build_finalize_ai_claims_ixs p ids args
build_crank p ids (oracle args) = build_finalize_oracle_ixs p ids args

-- The proposers that the caller passes to the two cranks that may go through a lookup table. The other
-- three are sent as legacy transactions.
abbrev pub table_tail : {p : Platform} → Crank p → List (Input p)
table_tail (proposals args) = args.proposers
table_tail (phase args) = []
table_tail (facts args) = []
table_tail (ai_claims args) = []
table_tail (oracle args) = args.proposers

abbrev pub crank_ix : {p : Platform} → Crank p → Ix
crank_ix (proposals args) = Ix.finalize_proposals
crank_ix (phase args) = Ix.advance_phase
crank_ix (facts args) = Ix.finalize_facts
crank_ix (ai_claims args) = Ix.finalize_ai_claims
crank_ix (oracle args) = Ix.finalize_oracle

module _ (p : Platform) (ids : ProgramIds p) where
  -- With a table, its addresses are those of the tail, in order; without one there are none.
  abbrev pub TableOf : Bool → List (Input p) → List p.Address → Type 0
  TableOf true tail addresses = addrs p ids tail ≡ ok addresses
  TableOf false tail addresses = addresses ≡ []

  -- The action is one instruction about `target`, with the tag of the crank, that asks nobody to sign;
  -- and it needs a lookup table exactly where the tail that was passed is longer than 24; the table is then of that tail.
  pub record IsCrankOf (c : Crank p) (target : p.Address) (action : FinalizeAction p) : Type 0 where
    pub about : account_at action.ixs 0 0 ≡ some target
    pub alone : length action.ixs ≡ 1
    pub unsigned : All (λ i. signing i.keys ≡ []) action.ixs
    pub tagged : All (λ i. get_elem? i.payload 0 ≡ some (disc_of (crank_ix c))) action.ixs
    pub needed : action.needs_alt ≡ ltb 24 (length (table_tail c))
    pub table : TableOf action.needs_alt (table_tail c) action.alt_addresses

  -- What a builder promises of the crank's instruction.
  abbrev Kept : Crank p → Instruction p.Address → Type 0
  Kept c ix = (signing ix.keys ≡ []) × (get_elem? ix.payload 0 ≡ some (disc_of (crank_ix c)))

  length-addrs :
      (tail : List (Input p)) (found : List p.Address)
      → addrs p ids tail ≡ ok found
      → length found ≡ length tail
  unfolding addrs
  length-addrs [] found h = ground arith
  length-addrs (a ∷ tail) found h =
      let (first, _, h1) = >>=-eq-ok (addr p a) _ h in
      let (rest, er, h2) = >>=-eq-ok (addrs p ids tail) _ h1 in
      ap length (sym (ok-inj h2)) ∙ ap suc (length-addrs tail rest er)

  require_tail-addrs :
      (field : String) (tail : List (Input p)) (found : List p.Address)
      → require_tail p ids field tail ≡ ok found
      → addrs p ids tail ≡ ok found
  unfolding require_tail
  require_tail-addrs field [] found h = cc
  require_tail-addrs field (a ∷ tail) found h = h

  alt_decision-IsCrankOf :
      (c : Crank p) (target : p.Address) (ix : Instruction p.Address) (tail : List p.Address)
      → account_at (ix ∷ []) 0 0 ≡ some target
      → Kept c ix
      → addrs p ids (table_tail c) ≡ ok tail
      → IsCrankOf c target (alt_decision p ids ix tail)
  unfolding alt_decision
  alt_decision-IsCrankOf c target ix tail h kept passed =
      let size = length-addrs (table_tail c) tail passed in
      record {
        about = h;
        alone = refl;
        unsigned = (kept.0, tt);
        tagged = (kept.1, tt);
        needed = ap (ltb 24) size;
        table = elim (Bool-cases (ltb 24 (length tail))) [
          | inl t ↦ rw t passed
          | inr t ↦ rw t refl
        ];
      }

  legacy-IsCrankOf :
      (c : Crank p) (target : p.Address) (ix : Instruction p.Address)
      → account_at (ix ∷ []) 0 0 ≡ some target
      → Kept c ix
      → table_tail c ≡ []
      → IsCrankOf c target (legacy p ids ix)
  legacy-IsCrankOf c target ix h kept none_passed = record {
    about = h;
    alone = refl;
    unsigned = (kept.0, tt);
    tagged = (kept.1, tt);
    needed = sym (ap (λ t. ltb 24 (length t)) none_passed);
    table = refl;
  }

  -- A call that names no authority makes an instruction that nobody signs, and that has its tag.
  promised :
      (call : Call p.Address p.Text) (ix : Instruction p.Address)
      → build p ids call ≡ ok ix
      → authority_of p call ≡ none
      → (signing ix.keys ≡ []) × (get_elem? ix.payload 0 ≡ some (disc_of (ix_of call)))
  promised call ix made nobody =
      let (_, tag, signed) = build_lem p ids call ix made in
      (subst (λ who. SignedBy p who (signing ix.keys)) nobody signed, tag)

module _ (p : Platform) (ids : ProgramIds p)
    (injective : (a b : p.Address) → p.to_base58 a ≡ p.to_base58 b → a ≡ b) where
  -- Where different addresses print differently, and the caller passes no nonce of its own, each of the
  -- five cranks that is built is about the oracle that was passed, for the two that need its nonce as
  -- well; it is one instruction with the tag of that crank, which asks nobody to sign; and it needs a
  -- lookup table exactly where it is one of the two for proposals and for the oracle and more than 24
  -- proposers were passed, which are then, in order, the addresses of the table; and a table that is
  -- not needed has no addresses.
  pub build_crank-IsCrankOf :
      (c : Crank p) (action : FinalizeAction p) (target : p.Address)
      → build_crank p ids c ≡ ok action
      → addr p (oracle_of c) ≡ ok target
      → nonce_of c ≡ none
      → IsCrankOf p ids c target action
  unfolding build_finalize_proposals_ixs build_advance_phase_ixs build_finalize_facts_ixs
      build_finalize_ai_claims_ixs build_finalize_oracle_ixs
  build_crank-IsCrankOf (proposals args) action target h e n =
      let (tail, et, h1) = >>=-eq-ok (require_tail p ids "proposers" args.proposers) _ h in
      let (ix, ei, h2) = >>=-eq-ok (finalize_proposals p ids _) _ h1 in
      subst (IsCrankOf p ids (proposals args) target) (ok-inj h2) (
        alt_decision-IsCrankOf p ids (proposals args) target ix tail
          (finalize_proposals_about p ids _ target ix e ei)
          (promised p ids (Call.finalize_proposals _) ix ei refl)
          (require_tail-addrs p ids "proposers" args.proposers tail et))
  build_crank-IsCrankOf (phase args) action target h e n =
      let (ix, ei, h2) = >>=-eq-ok (advance_phase p ids _) _ h in
      subst (IsCrankOf p ids (phase args) target) (ok-inj h2) (
        legacy-IsCrankOf p ids (phase args) target ix (advance_phase_about p ids _ target ix e ei)
          (promised p ids (Call.advance_phase _) ix ei refl) refl)
  build_crank-IsCrankOf (facts args) action target h e n =
      let (tail, et, h1) = >>=-eq-ok (require_tail p ids "facts" args.facts) _ h in
      let (nonce, en, h2) =
        >>=-eq-ok (nonce_or_scan p ids args.oracle_nonce args.oracle args.max_nonce args.program_id)
          _ h1 in
      let (ix, ei, h3) = >>=-eq-ok (finalize_facts p ids _) _ h2 in
      let about =
        finalize_facts_about p ids injective args target nonce (map address tail) ix e (rw n at en)
          ei in
      subst (IsCrankOf p ids (facts args) target) (ok-inj h3) (
        legacy-IsCrankOf p ids (facts args) target ix about
          (promised p ids (Call.finalize_facts _) ix ei refl) refl)
  build_crank-IsCrankOf (ai_claims args) action target h e n =
      let (tail, et, h1) = >>=-eq-ok (require_tail p ids "proposers" args.proposers) _ h in
      let (ix, ei, h2) = >>=-eq-ok (finalize_ai_claims p ids _) _ h1 in
      subst (IsCrankOf p ids (ai_claims args) target) (ok-inj h2) (
        legacy-IsCrankOf p ids (ai_claims args) target ix
          (finalize_ai_claims_about p ids _ target ix e ei)
          (promised p ids (Call.finalize_ai_claims _) ix ei refl) refl)
  build_crank-IsCrankOf (oracle args) action target h e n =
      let (tail, et, h1) = >>=-eq-ok (require_tail p ids "proposers" args.proposers) _ h in
      let (nonce, en, h2) =
        >>=-eq-ok (nonce_or_scan p ids args.oracle_nonce args.oracle args.max_nonce args.program_id)
          _ h1 in
      let (ix, ei, h3) = >>=-eq-ok (finalize_oracle p ids _) _ h2 in
      let about =
        finalize_oracle_about p ids injective args target nonce (map address tail) ix e (rw n at en)
          ei in
      subst (IsCrankOf p ids (oracle args) target) (ok-inj h3) (
        alt_decision-IsCrankOf p ids (oracle args) target ix tail about
          (promised p ids (Call.finalize_oracle _) ix ei refl)
          (require_tail-addrs p ids "proposers" args.proposers tail et))
