-- ===== src/Instructions/Promises.antt =====
-- What every builder promises about program, discriminant and signers.
use kassandra.Base.{
  ℕ, ◌∙◌, ◌%◌, List, [], ◌∷◌, ◌≡◌, refl, ap, some, false, ok, arith, get_elem?, concat,
  Result-cases, inl, inr,
}
use kassandra.Platform.{Platform}
use kassandra.Bytes.{u8}
use kassandra.Bytes.RoundTrip.{concat_bytes-concat}
use kassandra.Instructions.Payload.{
  Ix, disc_of, Instruction, ProgramIds, Input, Meta, addr, w, ro, metas, with_disc,
  program_or_default,
}
use kassandra.Instructions.Lifecycle.{
  init_protocol, create_oracle, write_oracle_meta, propose, finalize_proposals, advance_phase,
}
use kassandra.Instructions.Governance.{set_governance, set_config, resolve_deadend, kass_price}
use kassandra.Instructions.Dispute.{
  submit_fact, vote_fact, finalize_facts, submit_ai_claim, finalize_ai_claims, finalize_oracle,
}
use kassandra.Instructions.Settlement.{
  claim_proposer, claim_fact, claim_fact_vote, close_ai_claim, close_market, sweep_oracle,
}
use kassandra.Instructions.Challenge.{open_challenge, settle_challenge}
use kassandra.Instructions.Calls.{Call, signing, ix_of, program_of, authority_of, SignedBy, build}

tag_byte : (ix : Ix) → disc_of ix % 256 ≡ disc_of ix
tag_byte Ix.submit_fact = refl
tag_byte _ = refl

pub with_disc_lem : (ix : Ix) (cs : List (List ℕ)) → with_disc ix cs ≡ disc_of ix ∷ concat cs
unfolding with_disc
with_disc_lem ix cs =
    concat_bytes-concat (u8 (disc_of ix) ∷ cs) ∙ ap (λ b. b ∷ concat cs) (tag_byte ix)

pub with_disc-head :
    (ix : Ix) (cs : List (List ℕ)) → get_elem? (with_disc ix cs) 0 ≡ some (disc_of ix)
with_disc-head ix cs = ap (λ l. get_elem? l 0) (with_disc_lem ix cs)

module _ (p : Platform) where
  -- Accounts that nobody signs for.
  pub signing-metas :
      (meta : p.Address → Meta p) (ks : List (Input p)) (ms : List (Meta p))
      → ((a : p.Address) → (meta a).is_signer ≡ false)
      → metas p meta ks ≡ ok ms
      → signing ms ≡ []
  unfolding metas
  signing-metas meta [] ms quiet h = ground arith
  signing-metas meta (k ∷ ks) ms quiet h = elim (Result-cases (addr p k)) [
    | inl (a, e) ↦ elim (Result-cases (metas p meta ks)) [
      | inl (rest, r) ↦ ground (arith, quiet a, signing-metas meta ks rest quiet r)
      | inr (x, r) ↦ ground arith
    ]
    | inr (x, e) ↦ ground arith
  ]

  signing-metas-w :
      (ks : List (Input p)) (ms : List (Meta p))
      → metas p (λ k. w p k false) ks ≡ ok ms
      → signing ms ≡ []
  signing-metas-w ks ms h = signing-metas (λ k. w p k false) ks ms (λ _. refl) h

  signing-metas-ro :
      (ks : List (Input p)) (ms : List (Meta p))
      → metas p (λ k. ro p k false) ks ≡ ok ms
      → signing ms ≡ []
  signing-metas-ro ks ms h = signing-metas (λ k. ro p k false) ks ms (λ _. refl) h

module _ (p : Platform) (ids : ProgramIds p) where
  -- Whatever a builder returns is for the program that was named, or the default one; its data
  -- begins with the discriminant of its instruction; and the one account that must sign is the
  -- authority that the arguments name, or none where they name none.
  pub build_lem :
      (c : Call p.Address p.Text) (i : Instruction p.Address)
      → build p ids c ≡ ok i
      → (i.program_id ≡ program_or_default p ids (program_of p c))
        × (get_elem? i.payload 0 ≡ some (disc_of (ix_of c)))
        × SignedBy p (authority_of p c) (signing i.keys)
  unfolding init_protocol create_oracle write_oracle_meta propose finalize_proposals advance_phase
      set_governance set_config resolve_deadend kass_price submit_fact vote_fact finalize_facts
      submit_ai_claim finalize_ai_claims finalize_oracle claim_proposer claim_fact claim_fact_vote
      close_ai_claim close_market sweep_oracle open_challenge settle_challenge
  build_lem (Call.init_protocol args) i h = grind (arith, with_disc-head)
  build_lem (Call.create_oracle args) i h = grind (arith, with_disc-head)
  build_lem (Call.write_oracle_meta args) i h = grind (arith, with_disc-head)
  build_lem (Call.propose args) i h = grind (arith, with_disc-head)
  build_lem (Call.finalize_proposals args) i h = grind (arith, with_disc-head, signing-metas-ro p)
  build_lem (Call.advance_phase args) i h = grind (arith, with_disc-head)
  build_lem (Call.set_governance args) i h = grind (arith, with_disc-head)
  build_lem (Call.set_config args) i h = grind (arith, with_disc-head)
  build_lem (Call.resolve_deadend args) i h = grind (arith, with_disc-head)
  build_lem (Call.kass_price args) i h = grind (arith, with_disc-head)
  build_lem (Call.submit_fact args) i h = grind (arith, with_disc-head)
  build_lem (Call.vote_fact args) i h = grind (arith, with_disc-head)
  build_lem (Call.finalize_facts args) i h = grind (arith, with_disc-head, signing-metas-w p)
  build_lem (Call.submit_ai_claim args) i h = grind (arith, with_disc-head)
  build_lem (Call.finalize_ai_claims args) i h = grind (arith, with_disc-head, signing-metas-w p)
  build_lem (Call.finalize_oracle args) i h = grind (arith, with_disc-head, signing-metas-ro p)
  build_lem (Call.claim_proposer args) i h = grind (arith, with_disc-head)
  build_lem (Call.claim_fact args) i h = grind (arith, with_disc-head)
  build_lem (Call.claim_fact_vote args) i h = grind (arith, with_disc-head)
  build_lem (Call.close_ai_claim args) i h = grind (arith, with_disc-head)
  build_lem (Call.close_market args) i h = grind (arith, with_disc-head)
  build_lem (Call.sweep_oracle args) i h = grind (arith, with_disc-head)
  build_lem (Call.open_challenge args) i h = grind (arith, with_disc-head)
  build_lem (Call.settle_challenge args) i h = grind (arith, with_disc-head)
