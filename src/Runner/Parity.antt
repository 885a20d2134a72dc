-- ===== src/Runner/Parity.antt =====
-- The parity guard: what a successful call has checked, that it lets a faithful runner through, and
-- that it stops any drift.
use kassandra.Base.{
  ℕ, ◌≡◌, ◌≢◌, refl, ap, sym, ◌∙◌, arith, List, [], ◌∷◌, ◌++◌, true, Option, none, some, ok, err,
  parity_payload, ◌>>◌, length, take, ◌==◌, ==_iff, guard-eq-ok, guard-eq-ok_last, >>=-eq-ok,
  Bool-cases, inl, inr, length-append, append-nil, take_all,
}
use mathlib.Core.Path.{ap₂}
use kassandra.Platform.{Platform}
use kassandra.Bytes.{u8}
use kassandra.Accounts.Common.{slice}
use kassandra.Instructions.Payload.{
  Ix, Instruction, ProgramIds, with_disc, fixed_bytes, addr, base58,
}
use kassandra.Instructions.Pda.{ascii}
use kassandra.Instructions.Dispute.{SubmitAiClaimArgs, submit_ai_claim}
use kassandra.Instructions.Promises.{with_disc_lem}
use kassandra.Runner.Hex.{length-hex_to_bytes, IsHexOf, hex_to_bytes-IsHexOf}
use kassandra.Runner.{
  hex_to_bytes, bytes_equal, first_diff, RunnerOutput, SubmitAiClaimFromRunnerOpts, diff_index,
  check_seeds, check_parity, as_base58, RunnerClaimPdaSeeds, submit_ai_claim_from_runner,
}

bytes_equal_sound : (xs ys : List ℕ) → bytes_equal xs ys ≡ true → xs ≡ ys
unfolding bytes_equal
bytes_equal_sound [] [] h = refl
bytes_equal_sound (x ∷ xs) (y ∷ ys) h = ground (arith, bytes_equal_sound xs ys)
bytes_equal_sound [] (y ∷ ys) h = cc
bytes_equal_sound (x ∷ xs) [] h = cc

bytes_equal_refl : (xs : List ℕ) → bytes_equal xs xs ≡ true
unfolding bytes_equal
bytes_equal_refl [] = refl
bytes_equal_refl (x ∷ xs) = ground (arith, bytes_equal_refl xs)

module _ (p : Platform) where
  -- The guard passes exactly the discriminant in front of the expected 97 bytes.
  check_parity_sound :
      (sent expected : List ℕ)
      → check_parity p sent expected ≡ ok tt
      → (sent ≡ 3 ∷ expected) × (length expected ≡ 97)
  unfolding check_parity slice
  check_parity_sound [] expected h = cc
  check_parity_sound (d ∷ sent) expected h =
      let (size, h') = guard-eq-ok _ _ _ h in
      let (tag, h'') = guard-eq-ok (d == 3) _ _ h' in
      let same = guard-eq-ok_last (bytes_equal (take 97 sent) expected) _ h'' in
      let l : length sent ≡ 97 = omega (arith, (==_iff _ 98).0 size) in
      let whole = sym (take_all sent l) ∙ bytes_equal_sound _ _ same in
      (ap₂ ◌∷◌ ((==_iff d 3).0 tag) whole, sym (ap length whole) ∙ l)

  check_parity_complete :
      (expected : List ℕ) → length expected ≡ 97 → check_parity p (3 ∷ expected) expected ≡ ok tt
  unfolding check_parity slice
  check_parity_complete expected h = rw (h, take_all expected h, bytes_equal_refl expected)

  check_parity_drift :
      (sent expected : List ℕ)
      → length sent ≡ 97
      → sent ≢ expected
      → check_parity p (3 ∷ sent) expected
        ≡ err (parity_payload (diff_index (first_diff 0 sent expected)))
  unfolding check_parity slice
  check_parity_drift sent expected h differ = elim (Bool-cases (bytes_equal sent expected)) [
    | inl same ↦ absurd (differ (bytes_equal_sound sent expected same))
    | inr other ↦ rw (h, take_all sent h, other)
  ]

module _ (p : Platform) (opts : SubmitAiClaimFromRunnerOpts p.Address p.Text) where
  -- The seeds that the runner gives, if any, have the prefix `claim` and name the oracle and the
  -- proposer that are passed.
  abbrev pub SeedsName : Option (RunnerClaimPdaSeeds p.Text) → Type 0
  SeedsName none = Unit {0}
  SeedsName (some seeds) =
      (seeds.seed_prefix ≡ ascii "claim")
      × (o : p.Address) × (addr p opts.oracle ≡ ok o)
      × (addr p (base58 seeds.oracle) ≡ ok o)
      × (q : p.Address) × (addr p opts.proposer ≡ ok q)
      × (addr p (base58 seeds.proposer) ≡ ok q)

  same_text_refl : (t : p.Text) → p.same_text t t ≡ true
  same_text_refl t = (p.same_text_iff t t).1 refl

  check_seeds_complete :
      (seeds : Option (RunnerClaimPdaSeeds p.Text))
      → SeedsName seeds
      → check_seeds p seeds opts ≡ ok tt
  unfolding check_seeds as_base58
  check_seeds_complete none h = refl
  check_seeds_complete (some seeds) (prefix, o, passed_o, named_o, q, passed_q, named_q) = rw (
    prefix,
    bytes_equal_refl (ascii "claim"),
    passed_o,
    passed_q,
    named_o,
    same_text_refl (p.to_base58 o),
    named_q,
    same_text_refl (p.to_base58 q),
  )

-- The claim's bytes as the payload of the instruction.
abbrev pub claim_payload : List ℕ → List ℕ → List ℕ → ℕ → List ℕ
claim_payload model_id params_hash io_hash option =
    model_id ++ (params_hash ++ (io_hash ++ u8 option))

length-claim_payload :
    (m q o : List ℕ) (option : ℕ)
    → length m ≡ 32
    → length q ≡ 32
    → length o ≡ 32
    → length (claim_payload m q o option) ≡ 97
unfolding u8
length-claim_payload m q o option lm lq lo =
    let tail : List ℕ = u8 option in
    omega
      (arith, length-append m (q ++ (o ++ tail)), length-append q (o ++ tail), length-append o tail)

module _ (p : Platform) (ids : ProgramIds p) where
  -- The builder's data, for hashes of 32 bytes each.
  sent_claim :
      (args : SubmitAiClaimArgs p.Address p.Text) (i : Instruction p.Address)
      → submit_ai_claim p ids args ≡ ok i
      → i.payload ≡ 3 ∷ claim_payload args.model_id args.params_hash args.io_hash args.option
  unfolding submit_ai_claim fixed_bytes
  sent_claim args i h =
      let cs : List (List ℕ) =
        args.model_id ∷ args.params_hash ∷ args.io_hash ∷ u8 args.option ∷ [] in
      let built : i.payload ≡ with_disc Ix.submit_ai_claim cs = ground arith in
      built ∙ with_disc_lem Ix.submit_ai_claim cs ∙ rw (append-nil (u8 args.option))

  module _ (run : RunnerOutput p.Text) (opts : SubmitAiClaimFromRunnerOpts p.Address p.Text) where
    -- An instruction that is returned carries exactly the 97 bytes that the runner computed behind
    -- the discriminant, and these are the three hashes and the option that the runner named.
    pub submit_ai_claim_from_runner_sound :
        (i : Instruction p.Address)
        → submit_ai_claim_from_runner p ids run opts ≡ ok i
        → (payload : List ℕ) × (model_id : List ℕ) × (params_hash : List ℕ) × (io_hash : List ℕ)
          × (hex_to_bytes run.submit_ai_claim_payload_hex 97 ≡ ok payload)
          × (hex_to_bytes run.model_id_hex 32 ≡ ok model_id)
          × (hex_to_bytes run.params_hash_hex 32 ≡ ok params_hash)
          × (hex_to_bytes run.io_hash_hex 32 ≡ ok io_hash)
          × (i.payload ≡ 3 ∷ payload)
          × (payload ≡ claim_payload model_id params_hash io_hash run.option_index)
    unfolding submit_ai_claim_from_runner
    submit_ai_claim_from_runner_sound i h =
        let (m, em, h1) = >>=-eq-ok (hex_to_bytes run.model_id_hex 32) _ h in
        let (q, eq, h2) = >>=-eq-ok (hex_to_bytes run.params_hash_hex 32) _ h1 in
        let (o, eo, h3) = >>=-eq-ok (hex_to_bytes run.io_hash_hex 32) _ h2 in
        let (e, ee, h4) = >>=-eq-ok (hex_to_bytes run.submit_ai_claim_payload_hex 97) _ h3 in
        let (j, ej, h5) = >>=-eq-ok (submit_ai_claim p ids _) _ h4 in
        let (_, parity, h6) = >>=-eq-ok (check_parity p j.payload e) _ h5 in
        let (_, seeds, h7) = >>=-eq-ok (check_seeds p run.claim_pda_seeds opts) _ h6 in
        let same : j ≡ i = cc in
        let sent = (check_parity_sound p j.payload e parity).0 in
        let claim = sent_claim _ j ej in
        (e, m, q, o, ee, em, eq, eo, rw (← same) sent, cc (sent, claim))

    -- The builder's arguments for hashes that were decoded.
    abbrev pub claim_args : List ℕ → List ℕ → List ℕ → SubmitAiClaimArgs p.Address p.Text
    claim_args model_id params_hash io_hash = record {
      oracle = opts.oracle;
      proposer = opts.proposer;
      authority = opts.authority;
      model_id = model_id;
      params_hash = params_hash;
      io_hash = io_hash;
      option = run.option_index;
      program_id = opts.program_id;
    }

    module _ (m q o e : List ℕ) (j : Instruction p.Address)
        (em : hex_to_bytes run.model_id_hex 32 ≡ ok m)
        (eq : hex_to_bytes run.params_hash_hex 32 ≡ ok q)
        (eo : hex_to_bytes run.io_hash_hex 32 ≡ ok o)
        (ee : hex_to_bytes run.submit_ai_claim_payload_hex 97 ≡ ok e)
        (ej : submit_ai_claim p ids (claim_args m q o) ≡ ok j) where
      -- Behind the decoding and the builder only the two checks are left.
      from_runner_checks :
          submit_ai_claim_from_runner p ids run opts
          ≡ (check_parity p j.payload e >> (check_seeds p run.claim_pda_seeds opts >> ok j))
      unfolding submit_ai_claim_from_runner
      from_runner_checks = rw (em, eq, eo, ee, ej)

      from_decoded :
          e ≡ claim_payload m q o run.option_index
          → check_seeds p run.claim_pda_seeds opts ≡ ok tt
          → submit_ai_claim_from_runner p ids run opts ≡ ok j
      from_decoded same seeds =
          let sent = sent_claim (claim_args m q o) j ej ∙ ap (λ d. 3 ∷ d) (sym same) in
          let size = length-hex_to_bytes run.submit_ai_claim_payload_hex 97 e ee in
          from_runner_checks ∙ rw (sent, check_parity_complete p e size, seeds)

      -- A payload that is anything else is refused, with the index where it first differs.
      pub submit_ai_claim_from_runner_drift :
          claim_payload m q o run.option_index ≢ e
          → submit_ai_claim_from_runner p ids run opts
            ≡ err (
                parity_payload (diff_index (first_diff 0 (claim_payload m q o run.option_index) e)))
      submit_ai_claim_from_runner_drift differ =
          let lm = length-hex_to_bytes run.model_id_hex 32 m em in
          let lq = length-hex_to_bytes run.params_hash_hex 32 q eq in
          let lo = length-hex_to_bytes run.io_hash_hex 32 o eo in
          let size = length-claim_payload m q o run.option_index lm lq lo in
          let sent = sent_claim (claim_args m q o) j ej in
          from_runner_checks ∙ rw (sent, check_parity_drift p _ e size differ)

    -- The runner's four texts being hexadecimal, with or without `0x`, of three hashes of 32 bytes and
    -- of these hashes with the option behind them, and its seeds, if any, having the prefix `claim`
    -- and naming the oracle and the proposer that are passed, the instruction that the builder makes
    -- of the hashes and the option is returned.
    pub submit_ai_claim_from_runner_complete :
        (m q o : List ℕ) (j : Instruction p.Address)
        → length m ≡ 32
        → length q ≡ 32
        → length o ≡ 32
        → IsHexOf run.model_id_hex m
        → IsHexOf run.params_hash_hex q
        → IsHexOf run.io_hash_hex o
        → IsHexOf run.submit_ai_claim_payload_hex (claim_payload m q o run.option_index)
        → SeedsName p opts run.claim_pda_seeds
        → submit_ai_claim p ids (claim_args m q o) ≡ ok j
        → submit_ai_claim_from_runner p ids run opts ≡ ok j
    submit_ai_claim_from_runner_complete m q o j lm lq lo hm hq ho he seeds made =
        from_decoded m q o _ j (hex_to_bytes-IsHexOf run.model_id_hex m 32 hm lm)
          (hex_to_bytes-IsHexOf run.params_hash_hex q 32 hq lq)
          (hex_to_bytes-IsHexOf run.io_hash_hex o 32 ho lo)
          (hex_to_bytes-IsHexOf run.submit_ai_claim_payload_hex _ 97 he
            (length-claim_payload m q o run.option_index lm lq lo))
          made refl (check_seeds_complete p opts run.claim_pda_seeds seeds)
