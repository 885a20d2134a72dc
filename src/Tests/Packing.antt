-- ===== src/Tests/Packing.antt =====
-- The packer at three steps, of which the last does not fit beside the first two.
use kassandra.Base.{
  leb, ok-inj, ℕ, ◌+◌, ◌≤◌, ◌<◌, ◌≡◌, refl, ap, arith, List, [], ◌∷◌, ◌++◌, none, some, ok, All,
  concat, map, length, inl, ◌⊎◌, Option,
}
use kassandra.Tests.Sample.{sample, byte_key}
use kassandra.Instructions.Payload.{Instruction}
use kassandra.App.Pack.{
  Web3, ActivateStep, PackedTx, default_tx_compute_units, is_compute_unit_limit_ix, normalize_from,
  normalize_step, normalize_steps, total_compute_units, combined_ixs, wire_size, over_limits,
  must_close, close_batch, pack_from, pack_steps,
}
use kassandra.App.Pack.Facts.{without_limits, all_ixs, combined_ixs_lem}
use kassandra.App.Pack.Greedy.{IsBatch, pack_steps_order, pack_steps_within_limits}
use kassandra.App.Pack.Fewest.{Shrinks, FixedWidth, pack_steps_fewest}

abbrev Ins : Type 0
Ins = Instruction sample.Address

abbrev pub ins : ℕ → List ℕ → Ins
ins program payload = record { program_id = byte_key program; keys = []; payload = payload }

-- A message has one signature, and ten bytes for each instruction besides its data.
abbrev bytes_of : List Ins → ℕ
bytes_of [] = 0
bytes_of (i ∷ is) = 10 + length i.payload + bytes_of is

abbrev units_of : List ℕ → ℕ
units_of [] = 0
units_of (b ∷ []) = 0
units_of (b ∷ u ∷ bs) = u

abbrev pub web3 : Web3 sample
web3 = record {
  compute_budget_program_id = byte_key 99;
  is_limit_type = λ i. ok (leb 1 (length i.payload));
  decode_units = λ i. ok (units_of i.payload);
  set_compute_unit_limit = λ u. ins 99 (2 ∷ u ∷ []);
  compile_message = λ fee is. ok (1, bytes_of is);
}

abbrev pub step : Option ℕ → List Ins → ActivateStep sample
step units ixs = record {
  label = [];
  compute_units = units;
  ixs = ixs;
  check_account = byte_key 70;
  skip_if_landed = none;
}

abbrev pub steps : List (ActivateStep sample)
steps =
    step (some 400000) (ins 7 (1 ∷ []) ∷ [])
    ∷ step none (ins 99 (2 ∷ 300000 ∷ []) ∷ ins 8 (2 ∷ []) ∷ [])
    ∷ step (some 900000) (ins 9 (3 ∷ []) ∷ [])
    ∷ []

abbrev batches : List (PackedTx sample)
batches =
    record {
      steps =
          step (some 400000) (ins 7 (1 ∷ []) ∷ [])
          ∷ step none (ins 99 (2 ∷ 300000 ∷ []) ∷ ins 8 (2 ∷ []) ∷ [])
          ∷ [];
      ixs = ins 99 (2 ∷ 700000 ∷ []) ∷ ins 7 (1 ∷ []) ∷ ins 8 (2 ∷ []) ∷ [];
    }
    ∷ record {
      steps = step (some 900000) (ins 9 (3 ∷ []) ∷ []) ∷ [];
      ixs = ins 99 (2 ∷ 900000 ∷ []) ∷ ins 9 (3 ∷ []) ∷ [];
    }
    ∷ []

packed : pack_steps sample web3 (byte_key 50) steps ≡ ok batches
unfolding pack_steps pack_from must_close over_limits close_batch combined_ixs total_compute_units
    normalize_steps normalize_step normalize_from is_compute_unit_limit_ix wire_size
packed = refl

combined_ixs_lem_example :
    (units : ℕ) × (total_compute_units sample web3 steps ≡ ok units)
    × (((units ≤ default_tx_compute_units)
          × (ins 99 (2 ∷ 1600000 ∷ []) ∷ ins 7 (1 ∷ []) ∷ ins 8 (2 ∷ []) ∷ ins 9 (3 ∷ []) ∷ []
              ≡ without_limits sample web3 (all_ixs sample web3 steps)))
        ⊎ ((default_tx_compute_units < units)
            × (ins 99 (2 ∷ 1600000 ∷ []) ∷ ins 7 (1 ∷ []) ∷ ins 8 (2 ∷ []) ∷ ins 9 (3 ∷ []) ∷ []
                ≡ ins 99 (2 ∷ units ∷ [])
                  ∷ without_limits sample web3 (all_ixs sample web3 steps))))
unfolding combined_ixs normalize_steps normalize_step normalize_from is_compute_unit_limit_ix
combined_ixs_lem_example =
    combined_ixs_lem sample web3 steps
      (ins 99 (2 ∷ 1600000 ∷ []) ∷ ins 7 (1 ∷ []) ∷ ins 8 (2 ∷ []) ∷ ins 9 (3 ∷ []) ∷ []) refl

pack_steps_order_example : concat (map (λ (b : PackedTx sample). b.steps) batches) ≡ steps
pack_steps_order_example = pack_steps_order sample web3 (byte_key 50) steps batches packed

pack_steps_within_limits_example : All (IsBatch sample web3 (byte_key 50)) batches
pack_steps_within_limits_example =
    pack_steps_within_limits sample web3 (byte_key 50) steps batches packed

bytes_of-append : (a b : List Ins) → bytes_of (a ++ b) ≡ bytes_of a + bytes_of b
bytes_of-append [] b = omega arith
bytes_of-append (i ∷ is) b = omega (arith, bytes_of-append is b)

web3-Shrinks : Shrinks sample web3 (byte_key 50)
web3-Shrinks a b c k n h =
    let size = ap (λ (r : ℕ × ℕ). r.1) (ok-inj h) in
    (
      1,
      bytes_of (a ++ c),
      refl,
      omega (arith, ap (λ (r : ℕ × ℕ). r.0) (ok-inj h)),
      omega (arith, size, bytes_of-append a (b ++ c), bytes_of-append b c, bytes_of-append a c),
    )

web3-FixedWidth : FixedWidth sample web3 (byte_key 50)
web3-FixedWidth u u' b = refl

pack_steps_fewest_example : length batches ≤ 3
pack_steps_fewest_example =
    pack_steps_fewest sample web3 (byte_key 50) web3-Shrinks web3-FixedWidth steps batches packed
      (map (λ s. s ∷ []) steps) refl
      (inl (omega arith), (inl (omega arith), (inl (omega arith), tt)))
