-- ===== src/App/Sequence/Run.antt =====
-- One `run` of app/src/market/hooks/useActionSequence.ts from end to end.
use kassandra.Base.{
  ℕ, ◌≤◌, ◌<◌, ◌≡◌, ◌≢◌, refl, sym, ap, ◌∙◌, arith, List, [], ◌∷◌, true, false, Option, none, some,
  length, get_elem?, drop, map, concat, inl, inr, ◌⊎◌, ltb, Error, ok, Result-cases, Bool-cases,
  Option-cases, length-map, length-drop, length-replicate,
}
use mathlib.Core.Path.{subst}
use kassandra.Platform.{Platform}
use kassandra.App.Pack.{Web3, ActivateStep, PackedTx, pack_steps}
use kassandra.App.Pack.Greedy.{pack_steps_order}
use kassandra.App.Sequence.{
  World, StepStatus, pending, failed, Ended, busy, disconnected, finished, thrown, is_running,
  initial_run_state, probe, deliver, send_pending, run,
}
use kassandra.App.Sequence.Clear.{length-clear_from}
use kassandra.App.Sequence.Resume.{initial_run_state_lem}
use kassandra.App.Sequence.Statuses.{
  elem, IsDoneAt, length-set_each, set_each_out, length-send_batches, send_batches_out,
  send_batches_finished, deliver_cases, stopped≢finished,
}
use kassandra.App.Sequence.Probe.{length-probe, probe_before, probe_from}

module _ (p : Platform) (w : Web3 p) (world : World p) where
  length-deliver :
      (idxs : List ℕ) (bs : List (PackedTx p)) (xs : List (StepStatus p))
      → length (deliver p w world idxs bs xs).0 ≡ length xs
  length-deliver idxs bs xs = elim (deliver_cases p w world idxs bs xs) [
    | inl (send, e) ↦ ap (λ r. length r.0) e ∙ length-send_batches p send 0 idxs bs xs
    | inr (f, e) ↦ ap (λ r. length r.0) e ∙ length-set_each p idxs (failed f) xs
  ]

  deliver_out :
      (idxs : List ℕ) (bs : List (PackedTx p)) (xs : List (StepStatus p)) (j : ℕ)
      → elem j idxs ≡ false
      → get_elem? (deliver p w world idxs bs xs).0 j ≡ get_elem? xs j
  deliver_out idxs bs xs j h = elim (deliver_cases p w world idxs bs xs) [
    | inl (send, e) ↦ ap (λ r. get_elem? r.0 j) e ∙ send_batches_out p send 0 idxs bs xs j h
    | inr (f, e) ↦ ap (λ r. get_elem? r.0 j) e ∙ set_each_out p idxs (failed f) xs j h
  ]

  deliver_finished :
      (idxs : List ℕ) (bs : List (PackedTx p)) (xs : List (StepStatus p)) (j : ℕ)
      → length idxs ≡ length (concat (map (λ b. b.steps) bs))
      → j < length xs
      → (elem j idxs ≡ true) ⊎ IsDoneAt p xs j
      → (deliver p w world idxs bs xs).1 ≡ finished
      → IsDoneAt p (deliver p w world idxs bs xs).0 j
  deliver_finished idxs bs xs j n l d h = elim (deliver_cases p w world idxs bs xs) [
    | inl (send, e) ↦
        subst (λ r. IsDoneAt p r.0 j) (sym e)
          (send_batches_finished p send 0 idxs bs xs j n l d (sym (ap (λ r. r.1) e) ∙ h))
    | inr (f, e) ↦ absurd (stopped≢finished (sym (ap (λ r. r.1) e) ∙ h))
  ]

  -- With steps left, they are packed and delivered, or the packer has thrown.
  pub send_pending_cases :
      (fee_payer : p.Address) (xs : List (StepStatus p)) (q : ℕ × ActivateStep p)
      (qs : List (ℕ × ActivateStep p))
      → ((bs : List (PackedTx p)) × (length (map (λ x. x.0) (q ∷ qs))
            ≡ length (concat (map (λ b. b.steps) bs)))
          × (pack_steps p w fee_payer (map (λ x. x.1) (q ∷ qs)) ≡ ok bs)
          × (send_pending p w world fee_payer xs (q ∷ qs)
              ≡ deliver p w world (map (λ x. x.0) (q ∷ qs)) bs xs))
        ⊎ ((e : Error) × (send_pending p w world fee_payer xs (q ∷ qs) ≡ (xs, thrown e)))
  unfolding send_pending
  send_pending_cases fee xs q qs =
      let steps = map (λ x. x.1) (q ∷ qs) in
      elim (Result-cases (pack_steps p w fee steps)) [
        | inl (bs, e) ↦ inl (
          bs,
          length-map (q ∷ qs) (λ x. x.0)
              ∙ sym (length-map (q ∷ qs) (λ x. x.1))
              ∙ sym (ap length (pack_steps_order p w fee steps bs e)),
          e,
          ground arith,
        )
        | inr (e, h) ↦ inr (e, ground arith)
      ]

  length-send_pending :
      (fee_payer : p.Address) (xs : List (StepStatus p)) (rest : List (ℕ × ActivateStep p))
      → length (send_pending p w world fee_payer xs rest).0 ≡ length xs
  length-send_pending fee xs [] = unfold send_pending in refl
  length-send_pending fee xs (q ∷ qs) = elim (send_pending_cases fee xs q qs) [
    | inl (bs, n, _, e) ↦ ap (λ r. length r.0) e ∙ length-deliver _ bs xs
    | inr (_, e) ↦ ap (λ r. length r.0) e
  ]

  send_pending_out :
      (fee_payer : p.Address) (xs : List (StepStatus p)) (rest : List (ℕ × ActivateStep p)) (j : ℕ)
      → elem j (map (λ x. x.0) rest) ≡ false
      → get_elem? (send_pending p w world fee_payer xs rest).0 j ≡ get_elem? xs j
  send_pending_out fee xs [] j h = unfold send_pending in refl
  send_pending_out fee xs (q ∷ qs) j h = elim (send_pending_cases fee xs q qs) [
    | inl (bs, n, _, e) ↦ ap (λ r. get_elem? r.0 j) e ∙ deliver_out _ bs xs j h
    | inr (_, e) ↦ ap (λ r. get_elem? r.0 j) e
  ]

  send_pending_finished :
      (fee_payer : p.Address) (xs : List (StepStatus p)) (rest : List (ℕ × ActivateStep p)) (j : ℕ)
      → j < length xs
      → (elem j (map (λ x. x.0) rest) ≡ true) ⊎ IsDoneAt p xs j
      → (send_pending p w world fee_payer xs rest).1 ≡ finished
      → IsDoneAt p (send_pending p w world fee_payer xs rest).0 j
  send_pending_finished fee xs [] j l (inl h) e = cc
  send_pending_finished fee xs [] j l (inr d) e = unfold send_pending in d
  send_pending_finished fee xs (q ∷ qs) j l d h = elim (send_pending_cases fee xs q qs) [
    | inl (bs, n, _, e) ↦
        subst (λ r. IsDoneAt p r.0 j) (sym e)
          (deliver_finished _ bs xs j n l d (sym (ap (λ r. r.1) e) ∙ h))
    | inr (e', e) ↦ absurd (thrown≢finished e' (sym (ap (λ r. r.1) e) ∙ h))
  ]
    where
      thrown≢finished : (e : Error) → Path Ended (thrown e) finished → ⊥
      thrown≢finished e h = cc

  -- The state of a run once it has probed, and where it begins.
  abbrev pub begin_at : List (StepStatus p) → List (ActivateStep p) → Option ℕ → ℕ
  begin_at prev steps start = (initial_run_state p (length steps) prev start).1

  abbrev pub start_arr :
      List (StepStatus p) → List (ActivateStep p) → Option ℕ → List (StepStatus p)
  start_arr prev steps start = (initial_run_state p (length steps) prev start).0

  abbrev pub probed :
      List (StepStatus p)
      → List (ActivateStep p)
      → Option ℕ
      → List (StepStatus p) × List (ℕ × ActivateStep p)
  probed prev steps start =
      probe p w world (begin_at prev steps start) (drop (begin_at prev steps start) steps)
        (start_arr prev steps start)

  pub run_goes :
      (prev : List (StepStatus p)) (steps : List (ActivateStep p)) (start : Option ℕ)
      (fee_payer : p.Address)
      → is_running p prev ≡ false
      → world.public_key ≡ some fee_payer
      → run p w world prev steps start
        ≡ send_pending p w world fee_payer (probed prev steps start).0 (probed prev steps start).1
  unfolding run
  run_goes prev steps start fee h e = ground arith

  pub length-start_arr :
      (prev : List (StepStatus p)) (steps : List (ActivateStep p)) (start : Option ℕ)
      → length (start_arr prev steps start) ≡ length steps
  length-start_arr prev steps none = (initial_run_state_lem p (length steps) prev).0
  length-start_arr prev steps (some k) =
      unfold initial_run_state in
      (length-clear_from p k _ ∙ length-replicate (length steps) pending)

  pub turned_away :
      (prev : List (StepStatus p)) (steps : List (ActivateStep p)) (start : Option ℕ)
      → is_running p prev ≡ false
      → world.public_key ≡ none
      → run p w world prev steps start ≡ (map (λ s. pending) steps, disconnected)
  unfolding run
  turned_away prev steps start h e = ground arith

  pub run_aligned :
      (prev : List (StepStatus p)) (steps : List (ActivateStep p)) (start : Option ℕ)
      → is_running p prev ≡ false
      → length (run p w world prev steps start).0 ≡ length steps
  run_aligned prev steps start h = elim (Option-cases world.public_key) [
    | inl e ↦ ap (λ r. length r.0) (turned_away prev steps start h e) ∙ length-map steps _
    | inr (fee, e) ↦
        ap (λ r. length r.0) (run_goes prev steps start fee h e)
        ∙ length-send_pending fee _ _
        ∙ length-probe p w world _ _ _
        ∙ length-start_arr prev steps start
  ]

  -- With a wallet, a run leaves each status in front of its start as it was set at the start,
  -- however the run ends.
  pub run_keeps :
      (prev : List (StepStatus p)) (steps : List (ActivateStep p)) (start : Option ℕ)
      (fee_payer : p.Address) (j : ℕ)
      → is_running p prev ≡ false
      → world.public_key ≡ some fee_payer
      → j < (initial_run_state p (length steps) prev start).1
      → get_elem? (run p w world prev steps start).0 j
        ≡ get_elem? (initial_run_state p (length steps) prev start).0 j
  run_keeps prev steps start fee j h e l =
      let (a, b) =
        probe_before p w world _ (drop (begin_at prev steps start) steps)
          (start_arr prev steps start) j l in
      ap (λ r. get_elem? r.0 j) (run_goes prev steps start fee h e)
      ∙ send_pending_out fee _ _ j b
      ∙ a

  -- A run that ends neither way of being turned away sends what its probing has left.
  pub ended_goes :
      (prev : List (StepStatus p)) (steps : List (ActivateStep p)) (start : Option ℕ) (end : Ended)
      → busy ≢ end
      → disconnected ≢ end
      → (run p w world prev steps start).1 ≡ end
      → (fee_payer : p.Address) × (run p w world prev steps start
          ≡ send_pending p w world fee_payer
              (probed prev steps start).0
              (probed prev steps start).1)
  ended_goes prev steps start end b d f = elim (Bool-cases (is_running p prev)) [
    | inl e ↦
        let turned : run p w world prev steps start ≡ (prev, busy) = unfold run in ground arith in
        absurd (b (sym (ap (λ r. r.1) turned) ∙ f))
    | inr h ↦ elim (Option-cases world.public_key) [
      | inl e ↦ absurd (d (sym (ap (λ r. r.1) (turned_away prev steps start h e)) ∙ f))
      | inr (fee, e) ↦ (fee, run_goes prev steps start fee h e)
    ]
  ]

  -- A run that calls `onDone` has each step from its start on done, with a signature.
  pub run_finished :
      (prev : List (StepStatus p)) (steps : List (ActivateStep p)) (start : Option ℕ)
      → (run p w world prev steps start).1 ≡ finished
      → (j : ℕ) → (initial_run_state p (length steps) prev start).1 ≤ j
      → j < length steps
      → IsDoneAt p (run p w world prev steps start).0 j
  run_finished prev steps start f j l l' =
      let (fee, goes) = ended_goes prev steps start finished (λ q. cc) (λ q. cc) f in
      let k = begin_at prev steps start in
      let arr = start_arr prev steps start in
      let n = length-start_arr prev steps start in
      let n' = length-probe p w world k (drop k steps) arr in
      subst (λ r. IsDoneAt p r.0 j) (sym goes)
        (send_pending_finished fee _ _ j (omega (arith, n, n'))
          (probe_from p w world k (drop k steps) arr j l (omega (arith, length-drop k steps))
            (omega (arith, n)))
          (sym (ap (λ r. r.1) goes) ∙ f))

  -- A run without a start index that calls `onDone` has every step done, with a signature.
  pub run_finished_all :
      (prev : List (StepStatus p)) (steps : List (ActivateStep p))
      → (run p w world prev steps none).1 ≡ finished
      → (j : ℕ) → j < length steps
      → IsDoneAt p (run p w world prev steps none).0 j
  run_finished_all prev steps f j l =
      let (fee, goes) = ended_goes prev steps none finished (λ q. cc) (λ q. cc) f in
      let k = begin_at prev steps none in
      let (_, (_, before, _), _, _) = initial_run_state_lem p (length steps) prev in
      elim (Bool-cases (ltb j k)) [
        | inl e ↦
            let (a, b) =
              probe_before p w world k (drop k steps) (start_arr prev steps none) j
                (ground arith) in
            let (x, h) = before j (ground arith) in
            (x, ap (λ r. get_elem? r.0 j) goes ∙ send_pending_out fee _ _ j b ∙ a ∙ h)
        | inr e ↦ run_finished prev steps none f j (ground arith) l
      ]
