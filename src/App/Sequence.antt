-- ===== src/App/Sequence.antt =====
-- app/src/market/hooks/useActionSequence.ts, and `stepAlreadyLanded` of activate.ts: one `run` as a
-- function of the statuses before it and of what the wallet and the indexer answer.
pub mod Clear
pub mod Resume
pub mod Statuses
pub mod Probe
pub mod Run
pub mod Settled
pub mod Stopped
use kassandra.Base.{
  ℕ, zero, suc, ◌+◌, List, [], ◌∷◌, ◌++◌, Bool, true, false, ◌||◌, ◌&&◌, not, Option, none, some,
  Result, ok, err, Error, leb, if◌then◌else◌, ◌==◌, length, set, take, drop, map, replicate, ◌⊎◌,
  inl, inr, get_elem?,
}
use kassandra.Platform.{Platform}
use kassandra.Instructions.Payload.{Instruction}
use kassandra.App.Pack.{Web3, ActivateStep, PackedTx, pack_steps}

-- What `mapWriteError` makes of a caught error.
pub record Failure (p : Platform) : Type 0 where
  pub message : p.Text
  pub logs : Option (List p.Text)

pub data StepStatus (p : Platform) : Type 0 where
  pending : StepStatus p
  running : StepStatus p
  done : p.Text → StepStatus p
  failed : Failure p → StepStatus p

-- The wallet and the indexer. `send` and `send_signed` also take the number of the batch, since a
-- call at another time may end otherwise; a failure is the error as it is caught.
pub record World (p : Platform) : Type 1 where
  pub Info : Type 0
  pub Signed : Type 0
  -- `indexer.getAccount`, null where there is no account.
  pub get_account : p.Text → Result (Option Info)
  -- The key of a wallet that is connected and can sign.
  pub public_key : Option p.Address
  -- `sendAndConfirm`, the signing of all batches, and `sendSignedAndConfirm`.
  pub send : ℕ → List (Instruction p.Address) → Failure p ⊎ p.Text
  pub sign_all : Option (List (List (Instruction p.Address)) → Failure p ⊎ List Signed)
  pub send_signed : ℕ → Option Signed → Failure p ⊎ p.Text
  -- The text "already-landed".
  pub already_landed : p.Text

-- How a `run` ends: turned away since one is in flight, for want of a wallet, with `onDone` called,
-- at a failed transaction, or by an exception of the packer.
pub data Ended : Type 0 where
  busy disconnected finished stopped : Ended
  thrown : Error → Ended

module _ (p : Platform) where
  unfoldable pub is_running : List (StepStatus p) → Bool
  is_running [] = false
  is_running (StepStatus.running ∷ ss) = true
  is_running (s ∷ ss) = is_running ss

  abbrev pub is_done : StepStatus p → Bool
  is_done (StepStatus.done signature) = true
  is_done s = false

  -- `statusArr.findIndex((s) => s.kind !== "done")`.
  unfoldable pub first_not_done : List (StepStatus p) → Option ℕ
  first_not_done [] = none
  first_not_done (s ∷ ss) =
      if is_done s then elim (first_not_done ss) [ none ↦ none | some i ↦ some (suc i) ] else some 0

  abbrev pub forget_error : StepStatus p → StepStatus p
  forget_error (StepStatus.failed f) = pending
  forget_error s = s

  -- `statusArr.map((s, i) => (i >= begin && s.kind === "error" ? pending : s))`.
  unfoldable pub clear_from : ℕ → List (StepStatus p) → List (StepStatus p)
  clear_from begin [] = []
  clear_from zero (s ∷ ss) = forget_error s ∷ clear_from zero ss
  clear_from (suc begin) (s ∷ ss) = s ∷ clear_from begin ss

  unfoldable pub resume_point : ℕ → List (StepStatus p) → ℕ
  resume_point steps_length status_arr = elim (first_not_done status_arr) [
    | none ↦ steps_length
    | some i ↦ i
  ]

  unfoldable pub initial_run_state : ℕ → List (StepStatus p) → Option ℕ → List (StepStatus p) × ℕ
  initial_run_state steps_length prev_statuses (some start) =
      (clear_from start (replicate steps_length pending), start)
  initial_run_state steps_length prev_statuses none =
      let status_arr =
        if length prev_statuses == steps_length
        then prev_statuses
        else replicate steps_length pending in
      let begin = resume_point steps_length status_arr in (clear_from begin status_arr, begin)

  -- `for (const i of idxs) next[i] = s`.
  unfoldable pub set_each : List ℕ → StepStatus p → List (StepStatus p) → List (StepStatus p)
  set_each [] s next = next
  set_each (i ∷ idxs) s next = set_each idxs s (set next i s)

  -- The loop over the batches: `k` is the number of the batch, `idxs` what `cursor` has left.
  unfoldable pub send_batches :
      (ℕ → PackedTx p → Failure p ⊎ p.Text)
      → ℕ
      → List ℕ
      → List (PackedTx p)
      → List (StepStatus p)
      → List (StepStatus p) × Ended
  send_batches send k idxs [] statuses = (statuses, finished)
  send_batches send k idxs (batch ∷ batches) statuses =
      let mine = take (length batch.steps) idxs in
      let sending = set_each mine running statuses in
      elim (send k batch) [
        | inr signature ↦
            send_batches send (suc k) (drop (length batch.steps) idxs) batches
              (set_each mine (done signature) sending)
        | inl failure ↦ (set_each mine (failed failure) sending, stopped)
      ]

  module _ (w : Web3 p) (world : World p) where
    unfoldable pub step_already_landed : ActivateStep p → Bool
    step_already_landed step = elim (world.get_account (p.to_base58 step.check_account)) [
      | ok (some info) ↦ true
      | ok none ↦ false
      | err e ↦ false
    ]

    -- `steps[i].skipIfLanded !== false && (await stepAlreadyLanded(indexer, steps[i]))`.
    unfoldable pub skips : ActivateStep p → Bool
    skips step = elim step.skip_if_landed [
      | some false ↦ false
      | some true ↦ step_already_landed step
      | none ↦ step_already_landed step
    ]

    -- The probing loop, from index `i` on: the statuses, and the steps that are still to be sent.
    unfoldable pub probe :
        ℕ
        → List (ActivateStep p)
        → List (StepStatus p)
        → List (StepStatus p) × List (ℕ × ActivateStep p)
    probe i [] statuses = (statuses, [])
    probe i (step ∷ steps) statuses = elim (skips step) [
      | true ↦ probe (suc i) steps (set statuses i (done world.already_landed))
      | false ↦
          let (statuses', rest) = probe (suc i) steps statuses in (statuses', (i, step) ∷ rest)
    ]

    unfoldable pub send_one_by_one : ℕ → PackedTx p → Failure p ⊎ p.Text
    send_one_by_one k batch = world.send k batch.ixs

    unfoldable pub send_presigned : List world.Signed → ℕ → PackedTx p → Failure p ⊎ p.Text
    send_presigned signed k batch = world.send_signed k (get_elem? signed k)

    -- One popup for each batch, or one for all when there are several and the wallet can.
    unfoldable pub deliver :
        List ℕ → List (PackedTx p) → List (StepStatus p) → List (StepStatus p) × Ended
    deliver idxs batches statuses =
        if leb (length batches) 1
        then send_batches send_one_by_one 0 idxs batches statuses
        else elim world.sign_all [
          | none ↦ send_batches send_one_by_one 0 idxs batches statuses
          | some sign ↦ elim (sign (map (λ b. b.ixs) batches)) [
            | inl failure ↦ (set_each idxs (failed failure) statuses, stopped)
            | inr signed ↦ send_batches (send_presigned signed) 0 idxs batches statuses
          ]
        ]

    -- The part after the probing loop.
    unfoldable pub send_pending :
        p.Address → List (StepStatus p) → List (ℕ × ActivateStep p) → List (StepStatus p) × Ended
    send_pending fee_payer statuses [] = (statuses, finished)
    send_pending fee_payer statuses (q ∷ qs) =
        elim (pack_steps p w fee_payer (map (λ x. x.1) (q ∷ qs))) [
          | ok batches ↦ deliver (map (λ x. x.0) (q ∷ qs)) batches statuses
          | err e ↦ (statuses, thrown e)
        ]

    unfoldable pub run :
        List (StepStatus p) → List (ActivateStep p) → Option ℕ → List (StepStatus p) × Ended
    run statuses steps start_index =
        if is_running statuses then (statuses, busy) else elim world.public_key [
          | none ↦ (map (λ s. pending) steps, disconnected)
          | some fee_payer ↦
              let (status_arr, begin) = initial_run_state (length steps) statuses start_index in
              let (probed, rest) = probe begin (drop begin steps) status_arr in
              send_pending fee_payer probed rest
        ]
