-- ===== src/App/Sequence/Settled.antt =====
-- How a run of app/src/market/hooks/useActionSequence.ts leaves the flag `busy`.
use kassandra.Base.{
  ℕ, zero, suc, ◌<◌, ◌≡◌, ◌≢◌, refl, sym, ap, ◌∙◌, arith, List, [], ◌∷◌, false, Option, none, some,
  length, get_elem?, set, take, drop, map, replicate, ◌==◌, Bool-cases, Option-cases, inl, inr, ◌⊎◌,
}
use mathlib.Core.Path.{subst}
use kassandra.Platform.{Platform}
use kassandra.App.Pack.{Web3, ActivateStep, PackedTx}
use kassandra.App.Sequence.{
  World, Failure, StepStatus, pending, running, done, failed, is_running, clear_from,
  initial_run_state, set_each, send_batches, deliver, probe, skips, send_pending, run,
}
use kassandra.App.Sequence.Statuses.{
  elem, length-set_each, set_each_in, set_each_out, after, sent, not_sent, Sum-cases, deliver_cases,
}
use kassandra.App.Sequence.Probe.{probe_skip, probe_keep}
use kassandra.App.Sequence.Run.{run_aligned, send_pending_cases, run_goes, turned_away, begin_at}

module _ (p : Platform) where
  -- No status is `running`, index by index.
  abbrev pub Settled : List (StepStatus p) → Type 0
  Settled xs = (j : ℕ) → get_elem? xs j ≢ some running

  Settled-is_running : (xs : List (StepStatus p)) → is_running p xs ≡ false → Settled xs
  unfolding is_running
  Settled-is_running [] h j e = cc
  Settled-is_running (running ∷ xs) h j e = cc
  Settled-is_running (pending ∷ xs) h zero e = cc
  Settled-is_running (pending ∷ xs) h (suc j) e = Settled-is_running xs h j e
  Settled-is_running (done t ∷ xs) h zero e = cc
  Settled-is_running (done t ∷ xs) h (suc j) e = Settled-is_running xs h j e
  Settled-is_running (failed f ∷ xs) h zero e = cc
  Settled-is_running (failed f ∷ xs) h (suc j) e = Settled-is_running xs h j e

  is_running-Settled : (xs : List (StepStatus p)) → Settled xs → is_running p xs ≡ false
  unfolding is_running
  is_running-Settled [] s = refl
  is_running-Settled (running ∷ xs) s = absurd (s 0 refl)
  is_running-Settled (pending ∷ xs) s = is_running-Settled xs (λ j. s (suc j))
  is_running-Settled (done t ∷ xs) s = is_running-Settled xs (λ j. s (suc j))
  is_running-Settled (failed f ∷ xs) s = is_running-Settled xs (λ j. s (suc j))

  get_elem?_beyond :
      (xs : List (StepStatus p)) (j : ℕ) (v : StepStatus p)
      → get_elem? xs j ≡ some v
      → j < length xs
  get_elem?_beyond [] j v e = cc
  get_elem?_beyond (x ∷ xs) zero v e = omega arith
  get_elem?_beyond (x ∷ xs) (suc j) v e = let l = get_elem?_beyond xs j v e in omega arith

  set_each-Settled :
      (idxs : List ℕ) (s : StepStatus p) (xs : List (StepStatus p))
      → ((j : ℕ) → elem j idxs ≡ false → get_elem? xs j ≢ some running)
      → some s ≢ some running
      → Settled (set_each p idxs s xs)
  set_each-Settled idxs s xs out n j e =
      let l = get_elem?_beyond (set_each p idxs s xs) j running e in
      let size = length-set_each p idxs s xs in
      elim (Bool-cases (elem j idxs)) [
        | inl h ↦ n (sym (set_each_in p idxs s xs j h (omega arith)) ∙ e)
        | inr h ↦ out j h (sym (set_each_out p idxs s xs j h) ∙ e)
      ]

  after-Settled :
      (send : ℕ → PackedTx p → Failure p ⊎ p.Text) (mine : List ℕ) (s : StepStatus p)
      (xs : List (StepStatus p))
      → Settled xs
      → some s ≢ some running
      → Settled (after p send mine s xs)
  after-Settled send mine s xs h n =
      set_each-Settled mine s (set_each p mine running xs)
        (λ j o e. h j (sym (set_each_out p mine running xs j o) ∙ e)) n

  send_batches-Settled :
      (send : ℕ → PackedTx p → Failure p ⊎ p.Text) (k : ℕ) (idxs : List ℕ)
      (batches : List (PackedTx p)) (xs : List (StepStatus p))
      → Settled xs
      → Settled (send_batches p send k idxs batches xs).0
  send_batches-Settled send k idxs [] xs h = unfold send_batches in h
  send_batches-Settled send k idxs (b ∷ bs) xs h =
      let mine = take (length b.steps) idxs in
      elim (Sum-cases (send k b)) [
        | inl (f, e) ↦
            subst (λ r. Settled r.0) (sym (not_sent p send k idxs b bs xs f e))
              (after-Settled send mine (failed f) xs h (λ q. cc))
        | inr (x, e) ↦
            subst (λ r. Settled r.0) (sym (sent p send k idxs b bs xs x e))
              (send_batches-Settled send (suc k) (drop (length b.steps) idxs) bs
                (after p send mine (done x) xs) (after-Settled send mine (done x) xs h (λ q. cc)))
      ]

  is_running-clear_from :
      (k : ℕ) (xs : List (StepStatus p)) → is_running p (clear_from p k xs) ≡ is_running p xs
  unfolding is_running clear_from
  is_running-clear_from k [] = refl
  is_running-clear_from zero (pending ∷ xs) = is_running-clear_from zero xs
  is_running-clear_from zero (running ∷ xs) = refl
  is_running-clear_from zero (done t ∷ xs) = is_running-clear_from zero xs
  is_running-clear_from zero (failed f ∷ xs) = is_running-clear_from zero xs
  is_running-clear_from (suc k) (pending ∷ xs) = is_running-clear_from k xs
  is_running-clear_from (suc k) (running ∷ xs) = refl
  is_running-clear_from (suc k) (done t ∷ xs) = is_running-clear_from k xs
  is_running-clear_from (suc k) (failed f ∷ xs) = is_running-clear_from k xs

  is_running-replicate : (n : ℕ) → is_running p (replicate n pending) ≡ false
  unfolding is_running
  is_running-replicate zero = refl
  is_running-replicate (suc n) = is_running-replicate n

  is_running-initial_run_state :
      (n : ℕ) (prev : List (StepStatus p)) (start : Option ℕ)
      → is_running p prev ≡ false
      → is_running p (initial_run_state p n prev start).0 ≡ false
  unfolding initial_run_state
  is_running-initial_run_state n prev (some k) h =
      is_running-clear_from k _ ∙ is_running-replicate n
  is_running-initial_run_state n prev none h = elim (Bool-cases (length prev == n)) [
    | inl e ↦ is_running-clear_from _ _ ∙ rw e h
    | inr e ↦ is_running-clear_from _ _ ∙ rw e (is_running-replicate n)
  ]

  is_running-pending : {A : Type 0} (xs : List A) → is_running p (map (λ x. pending) xs) ≡ false
  unfolding is_running
  is_running-pending [] = refl
  is_running-pending (x ∷ xs) = is_running-pending xs

  Settled-set_done :
      (xs : List (StepStatus p)) (i : ℕ) (t : p.Text) → Settled xs → Settled (set xs i (done t))
  Settled-set_done [] i t h j e = cc
  Settled-set_done (x ∷ xs) zero t h zero e = cc
  Settled-set_done (x ∷ xs) zero t h (suc j) e = h (suc j) e
  Settled-set_done (x ∷ xs) (suc i) t h zero e = h 0 e
  Settled-set_done (x ∷ xs) (suc i) t h (suc j) e = Settled-set_done xs i t (λ k. h (suc k)) j e

  module _ (w : Web3 p) (world : World p) where
    probe-Settled :
        (i : ℕ) (steps : List (ActivateStep p)) (xs : List (StepStatus p))
        → Settled xs
        → Settled (probe p w world i steps xs).0
    probe-Settled i [] xs h = unfold probe in h
    probe-Settled i (s ∷ ss) xs h = elim (Bool-cases (skips p w world s)) [
      | inl e ↦
          subst (λ r. Settled r.0) (sym (probe_skip p w world i s ss xs e))
            (probe-Settled (suc i) ss _ (Settled-set_done xs i world.already_landed h))
      | inr e ↦
          subst (λ r. Settled r.0) (sym (probe_keep p w world i s ss xs e))
            (probe-Settled (suc i) ss xs h)
    ]

    deliver-Settled :
        (idxs : List ℕ) (bs : List (PackedTx p)) (xs : List (StepStatus p))
        → Settled xs
        → Settled (deliver p w world idxs bs xs).0
    deliver-Settled idxs bs xs h = elim (deliver_cases p w world idxs bs xs) [
      | inl (send, e) ↦ subst (λ r. Settled r.0) (sym e) (send_batches-Settled send 0 idxs bs xs h)
      | inr (f, e) ↦
          subst (λ r. Settled r.0) (sym e)
            (set_each-Settled idxs (failed f) xs (λ j o. h j) (λ q. cc))
    ]

    send_pending-Settled :
        (fee_payer : p.Address) (xs : List (StepStatus p)) (rest : List (ℕ × ActivateStep p))
        → Settled xs
        → Settled (send_pending p w world fee_payer xs rest).0
    send_pending-Settled fee xs [] h = unfold send_pending in h
    send_pending-Settled fee xs (q ∷ qs) h = elim (send_pending_cases p w world fee xs q qs) [
      | inl (bs, n, _, e) ↦ subst (λ r. Settled r.0) (sym e) (deliver-Settled _ bs xs h)
      | inr (_, e) ↦ subst (λ r. Settled r.0) (sym e) h
    ]

    run_idle :
        (prev : List (StepStatus p)) (steps : List (ActivateStep p)) (start : Option ℕ)
        → is_running p prev ≡ false
        → is_running p (run p w world prev steps start).0 ≡ false
    run_idle prev steps start h = elim (Option-cases world.public_key) [
      | inl e ↦
          ap (λ r. is_running p r.0) (turned_away p w world prev steps start h e)
          ∙ is_running-pending steps
      | inr (fee, e) ↦
          let clear = is_running-initial_run_state (length steps) prev start h in
          ap (λ r. is_running p r.0) (run_goes p w world prev steps start fee h e)
          ∙ is_running-Settled _ (
              send_pending-Settled fee _ _ (
                probe-Settled (begin_at p w world prev steps start) _ _
                  (Settled-is_running _ clear)))
    ]

    -- A run that is not turned away for another in flight leaves one status for each step, and none
    -- of them running, however it ends.
    pub run_settles :
        (prev : List (StepStatus p)) (steps : List (ActivateStep p)) (start : Option ℕ)
        → is_running p prev ≡ false
        → (length (run p w world prev steps start).0 ≡ length steps)
          × (is_running p (run p w world prev steps start).0 ≡ false)
    run_settles prev steps start h =
        (run_aligned p w world prev steps start h, run_idle prev steps start h)
