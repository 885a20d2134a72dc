-- ===== src/Tests/Runner.antt =====
-- The runner bridge, and the decoders side by side, at one input each.
use kassandra.Base.{
  ℕ, ◌≡◌, ◌↔◌, refl, arith, List, [], ◌∷◌, ◌++◌, none, some, ok, err, Result, replicate, length,
  get_elem?, zero, suc, ◌<◌, All, inl,
}
use kassandra.Bytes.{u8}
use native.Mathlib.Decide.{ℕ_discrete}
use kassandra.Tests.Sample.{sample, sample_ids, byte_key, key_of, key_of_lem}
use kassandra.Accounts.Kinds.{Kind, Accepts, decoders_accept}
use kassandra.Instructions.Payload.{
  address, Instruction, addr, pubkey_bytes, fixed_bytes, with_disc,
}
use kassandra.Instructions.Pda.{ascii, derive, ai_claim_pda}
use kassandra.Instructions.Dispute.{submit_ai_claim}
use kassandra.Runner.{
  digit, hex_to_bytes, RunnerOutput, SubmitAiClaimFromRunnerOpts, check_seeds, bytes_equal,
  as_base58, submit_ai_claim_from_runner,
}
use kassandra.Runner.Hex.{hex_of, hex_to_bytes_lenient}
use kassandra.Runner.Parity.{
  claim_payload, submit_ai_claim_from_runner_sound, submit_ai_claim_from_runner_complete,
}

hex_to_bytes_lenient_example :
    hex_to_bytes (hex_of (171 ∷ []) ++ (b'1' ∷ b'x' ∷ hex_of (18 ∷ []))) 3 ≡ ok (171 ∷ 1 ∷ 18 ∷ [])
unfolding digit
hex_to_bytes_lenient_example =
    hex_to_bytes_lenient (171 ∷ []) (18 ∷ []) b'1' b'x' 1 (omega arith, tt) (omega arith, tt) refl
      refl (λ (is_0, is_x). omega arith)

abbrev vote_data : List ℕ
vote_data = 4 ∷ replicate 87 0

decoders_accept_example :
    Accepts sample Kind.fact_vote vote_data
    ↔ ((length vote_data ≡ 88) × (get_elem? vote_data 0 ≡ some 4))
decoders_accept_example = decoders_accept sample Kind.fact_vote vote_data

All-replicate : (n b : ℕ) → b < 256 → All (λ b. b < 256) (replicate n b)
All-replicate zero b h = tt
All-replicate (suc n) b h = (h, All-replicate n b h)

All-append :
    (xs ys : List ℕ) → All (λ b. b < 256) xs → All (λ b. b < 256) ys → All (λ b. b < 256) (xs ++ ys)
All-append [] ys h h' = h'
All-append (x ∷ xs) ys (h, hs) h' = (h, All-append xs ys hs h')

abbrev claimed : List ℕ
claimed = replicate 32 1 ++ (replicate 32 2 ++ (replicate 32 3 ++ (4 ∷ [])))

claimed-bytes : All (λ b. b < 256) claimed
claimed-bytes =
    All-append (replicate 32 1) (replicate 32 2 ++ (replicate 32 3 ++ (4 ∷ [])))
      (All-replicate 32 1 (omega arith))
      (All-append (replicate 32 2) (replicate 32 3 ++ (4 ∷ [])) (All-replicate 32 2 (omega arith))
        (All-append (replicate 32 3) (4 ∷ []) (All-replicate 32 3 (omega arith)) (omega arith, tt)))

-- A runner's output whose payload is what is given.
abbrev output : List ℕ → RunnerOutput sample.Text
output payload = record {
  option_index = 4;
  model_id_hex = hex_of (replicate 32 1);
  params_hash_hex = hex_of (replicate 32 2);
  io_hash_hex = hex_of (replicate 32 3);
  submit_ai_claim_payload_hex = hex_of payload;
  claim_pda_seeds =
      some record {
        seed_prefix = ascii "claim";
        oracle = replicate 32 11;
        proposer = replicate 32 12;
      };
}

abbrev opts : SubmitAiClaimFromRunnerOpts sample.Address sample.Text
opts = record {
  oracle = address (byte_key 11);
  proposer = address (byte_key 12);
  authority = address (byte_key 41);
  program_id = none;
}

-- What the builder returns, and an empty instruction where it throws.
abbrev made : Result (Instruction sample.Address) → Instruction sample.Address
made (ok i) = i
made (err e) = record { program_id = byte_key 0; keys = []; payload = [] }

abbrev made_claim : Instruction sample.Address
made_claim = made (
    submit_ai_claim sample sample_ids record {
      oracle = address (byte_key 11);
      proposer = address (byte_key 12);
      authority = address (byte_key 41);
      model_id = replicate 32 1;
      params_hash = replicate 32 2;
      io_hash = replicate 32 3;
      option = 4;
      program_id = none;
    })

abbrev first : List ℕ → ℕ
first [] = 0
first (x ∷ xs) = x

named : (b : ℕ) → key_of (replicate 32 b) ≡ ok (byte_key b)
named b = key_of_lem (replicate 32 b) refl

claim_returned : submit_ai_claim_from_runner sample sample_ids (output claimed) opts ≡ ok made_claim
unfolding submit_ai_claim addr pubkey_bytes derive ai_claim_pda fixed_bytes with_disc check_seeds u8
    bytes_equal as_base58 ℕ_discrete
claim_returned =
    submit_ai_claim_from_runner_complete sample sample_ids (output claimed) opts (replicate 32 1)
      (replicate 32 2) (replicate 32 3) made_claim refl refl refl
      (All-replicate 32 1 (omega arith), inl refl) (All-replicate 32 2 (omega arith), inl refl)
      (All-replicate 32 3 (omega arith), inl refl) (claimed-bytes, inl refl)
      (refl, byte_key 11, refl, named 11, byte_key 12, refl, named 12) refl

submit_ai_claim_from_runner_complete_example :
    submit_ai_claim_from_runner sample sample_ids (output claimed) opts ≡ ok made_claim
unfolding submit_ai_claim addr pubkey_bytes derive ai_claim_pda fixed_bytes with_disc check_seeds u8
    bytes_equal as_base58 ℕ_discrete
submit_ai_claim_from_runner_complete_example =
    submit_ai_claim_from_runner_complete sample sample_ids (output claimed) opts (replicate 32 1)
      (replicate 32 2) (replicate 32 3) made_claim refl refl refl
      (All-replicate 32 1 (omega arith), inl refl) (All-replicate 32 2 (omega arith), inl refl)
      (All-replicate 32 3 (omega arith), inl refl) (claimed-bytes, inl refl)
      (refl, byte_key 11, refl, named 11, byte_key 12, refl, named 12) refl

submit_ai_claim_from_runner_sound_example :
    (payload : List ℕ) × (model_id : List ℕ) × (params_hash : List ℕ) × (io_hash : List ℕ)
    × (hex_to_bytes (hex_of claimed) 97 ≡ ok payload)
    × (hex_to_bytes (hex_of (replicate 32 1)) 32 ≡ ok model_id)
    × (hex_to_bytes (hex_of (replicate 32 2)) 32 ≡ ok params_hash)
    × (hex_to_bytes (hex_of (replicate 32 3)) 32 ≡ ok io_hash)
    × (made_claim.payload ≡ 3 ∷ payload)
    × (payload ≡ claim_payload model_id params_hash io_hash 4)
submit_ai_claim_from_runner_sound_example =
    submit_ai_claim_from_runner_sound sample sample_ids (output claimed) opts made_claim
      claim_returned
