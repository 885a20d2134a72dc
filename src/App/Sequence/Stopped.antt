-- ===== src/App/Sequence/Stopped.antt =====
-- What a run of app/src/market/hooks/useActionSequence.ts that stops at a failure leaves behind.
use kassandra.Base.{
  ℕ, zero, suc, ◌-◌, ◌<◌, ◌≤◌, ◌≡◌, refl, sym, ap, ◌∙◌, arith, true, List, [], ◌∷◌, Option, All,
  some, length, get_elem?, take, drop, map, concat, Bool-cases, inl, inr, ◌⊎◌, length-append,
  length-drop,
}
use mathlib.Core.Path.{subst}
use kassandra.Platform.{Platform}
use kassandra.App.Pack.{Web3, ActivateStep, PackedTx}
use kassandra.App.Pack.Greedy.{IsBatch, pack_steps_within_limits}
use kassandra.App.Sequence.{
  World, Failure, StepStatus, done, failed, running, Ended, finished, stopped, thrown, set_each,
  send_batches, deliver, probe, skips, send_pending, run,
}
use kassandra.App.Sequence.Statuses.{
  elem, set_each_in, length-set_each, after, length-after, sent, not_sent, Sum-cases, deliver_cases,
}
use kassandra.App.Sequence.Probe.{left, probe_skip, probe_keep, length-probe}
use kassandra.App.Sequence.Run.{
  send_pending_cases, ended_goes, start_arr, begin_at, probed, length-start_arr,
}

take_head {ℓ} :
    {A : Type ℓ} (n : ℕ) (x : A) (xs : List A) → 1 ≤ n → take n (x ∷ xs) ≡ x ∷ take (n - 1) xs
take_head zero x xs l = absurd (omega arith)
take_head (suc n) x xs l = ap (λ k. x ∷ take k xs) (omega arith)

All-drop :
    (bound n : ℕ) (idxs : List ℕ) → All (λ i. i < bound) idxs → All (λ i. i < bound) (drop n idxs)
All-drop bound zero idxs h = h
All-drop bound (suc n) [] h = tt
All-drop bound (suc n) (i ∷ idxs) (h, hs) = All-drop bound n idxs hs

module _ (p : Platform) where
  -- Some status is an error.
  abbrev pub HasFailed : List (StepStatus p) → Type 0
  HasFailed xs = (j : ℕ) × (f : Failure p) × (get_elem? xs j ≡ some (failed f))

  set_each-HasFailed :
      (i : ℕ) (idxs : List ℕ) (f : Failure p) (xs : List (StepStatus p))
      → i < length xs
      → HasFailed (set_each p (i ∷ idxs) (failed f) xs)
  set_each-HasFailed i idxs f xs l =
      let here : elem i (i ∷ idxs) ≡ true = ground arith in
      (i, f, set_each_in p (i ∷ idxs) (failed f) xs i here l)

  send_batches-HasFailed :
      (send : ℕ → PackedTx p → Failure p ⊎ p.Text) (k : ℕ) (idxs : List ℕ) (bs : List (PackedTx p))
      (xs : List (StepStatus p)) (bound : ℕ)
      → length xs ≡ bound
      → length idxs ≡ length (concat (map (λ b. b.steps) bs))
      → All (λ b. 1 ≤ length b.steps) bs
      → All (λ i. i < bound) idxs
      → (send_batches p send k idxs bs xs).1 ≡ stopped
      → HasFailed (send_batches p send k idxs bs xs).0
  send_batches-HasFailed send k idxs [] xs bound size n full range h =
      let end : Path Ended finished stopped = unfold send_batches in h in cc
  send_batches-HasFailed send k [] (b ∷ bs) xs bound size n (l, full) range h =
      absurd (omega (arith, length-append b.steps (concat (map (λ b. b.steps) bs))))
  send_batches-HasFailed send k (i ∷ idxs) (b ∷ bs) xs bound size n (l, full) (here, range) h =
      let mine = take (length b.steps) (i ∷ idxs) in
      elim (Sum-cases (send k b)) [
        | inl (f, e) ↦
            let more = take (length b.steps - 1) idxs in
            let marked = length-set_each p mine running xs in
            subst (λ r. HasFailed r.0) (sym (not_sent p send k (i ∷ idxs) b bs xs f e))
              (subst (λ m. HasFailed (set_each p m (failed f) (set_each p mine running xs)))
                (sym (take_head (length b.steps) i idxs l))
                (set_each-HasFailed i more f (set_each p mine running xs)
                  (omega (arith, marked, size))))
        | inr (x, e) ↦
            let goes = sent p send k (i ∷ idxs) b bs xs x e in
            subst (λ r. HasFailed r.0) (sym goes)
              (send_batches-HasFailed send (suc k) (drop (length b.steps) (i ∷ idxs)) bs
                (after p send mine (done x) xs) bound (length-after p send mine (done x) xs ∙ size)
                (omega (
                  arith,
                  length-drop (length b.steps) (i ∷ idxs),
                  length-append b.steps (concat (map (λ b. b.steps) bs)),
                ))
                full (All-drop bound (length b.steps) (i ∷ idxs) (here, range))
                (sym (ap (λ r. r.1) goes) ∙ h))
      ]

  module _ (w : Web3 p) (world : World p) where
    left_bound :
        (bound i : ℕ) (steps : List (ActivateStep p)) (xs : List (StepStatus p))
        → length steps ≤ bound - i
        → All (λ j. j < bound) (left p w world (probe p w world i steps xs))
    left_bound bound i [] xs l = unfold probe in tt
    left_bound bound i (s ∷ ss) xs l = elim (Bool-cases (skips p w world s)) [
      | inl e ↦
          subst (λ r. All (λ j. j < bound) (left p w world r))
            (sym (probe_skip p w world i s ss xs e)) (left_bound bound (suc i) ss _ (omega arith))
      | inr e ↦
          subst (λ r. All (λ j. j < bound) (left p w world r))
            (sym (probe_keep p w world i s ss xs e))
            (omega arith, left_bound bound (suc i) ss xs (omega arith))
    ]

    deliver-HasFailed :
        (i : ℕ) (idxs : List ℕ) (bs : List (PackedTx p)) (xs : List (StepStatus p))
        → length (i ∷ idxs) ≡ length (concat (map (λ b. b.steps) bs))
        → All (λ b. 1 ≤ length b.steps) bs
        → All (λ j. j < length xs) (i ∷ idxs)
        → (deliver p w world (i ∷ idxs) bs xs).1 ≡ stopped
        → HasFailed (deliver p w world (i ∷ idxs) bs xs).0
    deliver-HasFailed i idxs bs xs n full (here, range) h =
        elim (deliver_cases p w world (i ∷ idxs) bs xs) [
          | inl (send, e) ↦
              subst (λ r. HasFailed r.0) (sym e)
                (send_batches-HasFailed send 0 (i ∷ idxs) bs xs (length xs) refl n full
                  (here, range) (sym (ap (λ r. r.1) e) ∙ h))
          | inr (f, e) ↦ subst (λ r. HasFailed r.0) (sym e) (set_each-HasFailed i idxs f xs here)
        ]

    filled-IsBatch :
        (fee_payer : p.Address) (bs : List (PackedTx p))
        → All (IsBatch p w fee_payer) bs
        → All (λ b. 1 ≤ length b.steps) bs
    filled-IsBatch fee [] h = tt
    filled-IsBatch fee (b ∷ bs) ((_, l, _), hs) = (l, filled-IsBatch fee bs hs)

    send_pending-HasFailed :
        (fee_payer : p.Address) (xs : List (StepStatus p)) (rest : List (ℕ × ActivateStep p))
        → All (λ j. j < length xs) (map (λ x. x.0) rest)
        → (send_pending p w world fee_payer xs rest).1 ≡ stopped
        → HasFailed (send_pending p w world fee_payer xs rest).0
    send_pending-HasFailed fee xs [] range h =
        let end : Path Ended finished stopped = unfold send_pending in h in cc
    send_pending-HasFailed fee xs (q ∷ qs) range h =
        elim (send_pending_cases p w world fee xs q qs) [
          | inl (bs, n, packed, e) ↦
              subst (λ r. HasFailed r.0) (sym e)
                (deliver-HasFailed q.0 (map (λ x. x.0) qs) bs xs n
                  (filled-IsBatch fee bs (pack_steps_within_limits p w fee _ bs packed)) range
                  (sym (ap (λ r. r.1) e) ∙ h))
          | inr (x, e) ↦ let end : Path Ended (thrown x) stopped = sym (ap (λ r. r.1) e) ∙ h in cc
        ]

    -- A run that stops at a failed transaction leaves some step with an error.
    pub run_stopped :
        (prev : List (StepStatus p)) (steps : List (ActivateStep p)) (start : Option ℕ)
        → (run p w world prev steps start).1 ≡ stopped
        → HasFailed (run p w world prev steps start).0
    run_stopped prev steps start h =
        let (fee, goes) = ended_goes p w world prev steps start stopped (λ q. cc) (λ q. cc) h in
        let k = begin_at p w world prev steps start in
        let arr = start_arr p w world prev steps start in
        let size =
          length-probe p w world k (drop k steps) arr
          ∙ length-start_arr p w world prev steps start in
        let range =
          left_bound (length steps) k (drop k steps) arr (omega (arith, length-drop k steps)) in
        subst (λ r. HasFailed r.0) (sym goes)
          (send_pending-HasFailed fee _ _
            (subst (λ n. All (λ j. j < n) (left p w world (probed p w world prev steps start)))
              (sym size) range)
            (sym (ap (λ r. r.1) goes) ∙ h))
