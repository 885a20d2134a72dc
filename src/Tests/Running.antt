-- ===== src/Tests/Running.antt =====
-- A run that resumes after a failure, with a wallet that signs one transaction at a time.
use kassandra.Base.{
  ℕ, ◌≡◌, ◌⊎◌, refl, arith, List, [], ◌∷◌, none, some, ok, All, length, inl, inr, true, false, take,
  drop, get_elem?, map,
}
use kassandra.Tests.Sample.{sample, byte_key}
use kassandra.Tests.Packing.{web3, steps}
use kassandra.App.Pack.{
  is_compute_unit_limit_ix, normalize_from, normalize_step, normalize_steps, total_compute_units,
  combined_ixs, wire_size, over_limits, must_close, close_batch, pack_from, pack_steps,
}
use kassandra.App.Sequence.{
  World, Failure, StepStatus, pending, done, failed, finished, stopped, is_running, is_done,
  first_not_done, clear_from, resume_point, initial_run_state, set_each, send_batches,
  step_already_landed, skips, probe, send_one_by_one, deliver, send_pending, run,
}
use kassandra.App.Sequence.Clear.{cleared}
use kassandra.App.Sequence.Resume.{is_error, reused, initial_run_state_resumes}
use kassandra.App.Sequence.Statuses.{IsDoneAt}
use kassandra.App.Sequence.Settled.{run_settles}
use kassandra.App.Sequence.Stopped.{HasFailed, run_stopped}
use kassandra.App.Sequence.Run.{run_finished_all}

abbrev world : World sample
world = record {
  Info = ℕ;
  Signed = ℕ;
  get_account = λ t. ok none;
  public_key = some (byte_key 50);
  send = λ k is. inr (k ∷ []);
  sign_all = none;
  send_signed = λ k s. inr (k ∷ []);
  already_landed = [];
}

abbrev refused : Failure sample
refused = record { message = []; logs = none }

-- The first step is done, the second has failed.
abbrev before : List (StepStatus sample)
before = done (7 ∷ []) ∷ failed refused ∷ pending ∷ []

initial_run_state_resumes_example :
    (length (initial_run_state sample 3 before none).0 ≡ 3)
    × All
        (λ s. is_done sample s ≡ true)
        (take (initial_run_state sample 3 before none).1 (initial_run_state sample 3 before none).0)
    × (((initial_run_state sample 3 before none).1 ≡ 3)
        ⊎ ((s : StepStatus sample) × (get_elem?
                (initial_run_state sample 3 before none).0
                (initial_run_state sample 3 before none).1
              ≡ some s)
            × (is_done sample s ≡ false)))
    × All
        (λ s. is_error sample s ≡ false)
        (drop (initial_run_state sample 3 before none).1 (initial_run_state sample 3 before none).0)
    × (take (initial_run_state sample 3 before none).1 (initial_run_state sample 3 before none).0
        ≡ take (initial_run_state sample 3 before none).1 (reused sample 3 before))
    × (drop (initial_run_state sample 3 before none).1 (initial_run_state sample 3 before none).0
        ≡ map
            (cleared sample)
            (drop (initial_run_state sample 3 before none).1 (reused sample 3 before)))
initial_run_state_resumes_example = initial_run_state_resumes sample 3 before

run_settles_example :
    (length (run sample web3 world before steps none).0 ≡ 3)
    × (is_running sample (run sample web3 world before steps none).0 ≡ false)
unfolding is_running
run_settles_example = run_settles sample web3 world before steps none refl

ends : (run sample web3 world before steps none).1 ≡ finished
unfolding run is_running initial_run_state resume_point first_not_done clear_from probe skips
    step_already_landed send_pending pack_steps pack_from must_close over_limits close_batch
    combined_ixs total_compute_units normalize_steps normalize_step normalize_from
    is_compute_unit_limit_ix wire_size deliver send_batches send_one_by_one set_each
ends = refl

run_finished_all_example : IsDoneAt sample (run sample web3 world before steps none).0 0
run_finished_all_example = run_finished_all sample web3 world before steps ends 0 (omega arith)

-- The wallet refuses every transaction.
abbrev closed : World sample
closed = record world { send = λ k is. inl refused }

ends_stopped : (run sample web3 closed before steps none).1 ≡ stopped
unfolding run is_running initial_run_state resume_point first_not_done clear_from probe skips
    step_already_landed send_pending pack_steps pack_from must_close over_limits close_batch
    combined_ixs total_compute_units normalize_steps normalize_step normalize_from
    is_compute_unit_limit_ix wire_size deliver send_batches send_one_by_one set_each
ends_stopped = refl

run_stopped_example : HasFailed sample (run sample web3 closed before steps none).0
run_stopped_example = run_stopped sample web3 closed before steps none ends_stopped
