-- ===== src/App/Sequence/Probe.antt =====
-- The probing loop of `run`, app/src/market/hooks/useActionSequence.ts.
use kassandra.Base.{
  ℕ, suc, ◌+◌, ◌≤◌, ◌<◌, ◌≡◌, refl, sym, ap, ◌∙◌, arith, List, [], ◌∷◌, true, false, length,
  get_elem?, some, set, map, ◌==◌, ==_iff, Bool-cases, inl, inr, ◌⊎◌,
}
use mathlib.Core.Path.{subst}
use kassandra.Platform.{Platform}
use kassandra.App.Pack.{Web3, ActivateStep}
use kassandra.App.Sequence.{World, StepStatus, done, probe, skips}
use kassandra.App.Sequence.Statuses.{
  elem, IsDoneAt, length-set, get_elem?-set_same, get_elem?-set_other,
}

module _ (p : Platform) (w : Web3 p) (world : World p) where
  -- The indices of the steps that are still to be sent.
  abbrev pub left : List (StepStatus p) × List (ℕ × ActivateStep p) → List ℕ
  left r = map (λ x. x.0) r.1

  abbrev pub add :
      ℕ × ActivateStep p
      → List (StepStatus p) × List (ℕ × ActivateStep p)
      → List (StepStatus p) × List (ℕ × ActivateStep p)
  add x r = (r.0, x ∷ r.1)

  pub probe_skip :
      (i : ℕ) (s : ActivateStep p) (ss : List (ActivateStep p)) (xs : List (StepStatus p))
      → skips p w world s ≡ true
      → probe p w world i (s ∷ ss) xs
        ≡ probe p w world (suc i) ss (set xs i (done world.already_landed))
  unfolding probe
  probe_skip i s ss xs e = ground arith

  pub probe_keep :
      (i : ℕ) (s : ActivateStep p) (ss : List (ActivateStep p)) (xs : List (StepStatus p))
      → skips p w world s ≡ false
      → probe p w world i (s ∷ ss) xs ≡ add (i, s) (probe p w world (suc i) ss xs)
  unfolding probe
  probe_keep i s ss xs e = ground arith

  pub length-probe :
      (i : ℕ) (steps : List (ActivateStep p)) (xs : List (StepStatus p))
      → length (probe p w world i steps xs).0 ≡ length xs
  length-probe i [] xs = unfold probe in refl
  length-probe i (s ∷ ss) xs = elim (Bool-cases (skips p w world s)) [
    | inl e ↦
        ap (λ r. length r.0) (probe_skip i s ss xs e)
        ∙ length-probe (suc i) ss _
        ∙ length-set xs i _
    | inr e ↦ ap (λ r. length r.0) (probe_keep i s ss xs e) ∙ length-probe (suc i) ss xs
  ]

  pub probe_before :
      (i : ℕ) (steps : List (ActivateStep p)) (xs : List (StepStatus p)) (j : ℕ)
      → j < i
      → (get_elem? (probe p w world i steps xs).0 j ≡ get_elem? xs j)
        × (elem j (left (probe p w world i steps xs)) ≡ false)
  probe_before i [] xs j l = unfold probe in (refl, refl)
  probe_before i (s ∷ ss) xs j l = elim (Bool-cases (skips p w world s)) [
    | inl e ↦
        let (a, b) =
          probe_before (suc i) ss (set xs i (done world.already_landed)) j (omega arith) in
        (
          ap (λ r. get_elem? r.0 j) (probe_skip i s ss xs e)
              ∙ a
              ∙ get_elem?-set_other xs i j _ (λ e. omega arith),
          ap (λ r. elem j (left r)) (probe_skip i s ss xs e) ∙ b,
        )
    | inr e ↦
        let (a, b) = probe_before (suc i) ss xs j (omega arith) in
        (
          ap (λ r. get_elem? r.0 j) (probe_keep i s ss xs e) ∙ a,
          ap (λ r. elem j (left r)) (probe_keep i s ss xs e) ∙ ground arith,
        )
  ]

  pub probe_from :
      (i : ℕ) (steps : List (ActivateStep p)) (xs : List (StepStatus p)) (j : ℕ)
      → i ≤ j
      → j < i + length steps
      → j < length xs
      → (elem j (left (probe p w world i steps xs)) ≡ true)
        ⊎ IsDoneAt p (probe p w world i steps xs).0 j
  probe_from i [] xs j l l' l'' = absurd (omega arith)
  probe_from i (s ∷ ss) xs j l l' l'' =
      let landed = set xs i (done world.already_landed) in
      let n = length-set xs i (done world.already_landed) in
      elim (Bool-cases (skips p w world s)) [
        | inl e ↦
            subst (λ r. (elem j (left r) ≡ true) ⊎ IsDoneAt p r.0 j) (sym (probe_skip i s ss xs e))
              (elim (Bool-cases (i == j)) [
                | inl e' ↦
                    let (a, _) = probe_before (suc i) ss landed j (ground arith) in
                    inr (
                      world.already_landed,
                      a
                          ∙ subst (λ k. get_elem? landed k ≡ some (done world.already_landed))
                              ((==_iff i j).0 e') (get_elem?-set_same xs i _ (omega arith)),
                    )
                | inr e' ↦
                    probe_from (suc i) ss landed j (ground arith) (omega arith) (omega (arith, n))
              ])
        | inr e ↦
            subst (λ r. (elem j (left r) ≡ true) ⊎ IsDoneAt p r.0 j) (sym (probe_keep i s ss xs e))
              (elim (Bool-cases (i == j)) [
                | inl e' ↦ inl (ground arith)
                | inr e' ↦ elim (probe_from (suc i) ss xs j (ground arith) (omega arith) l'') [
                  | inl h ↦ inl (ground arith)
                  | inr h ↦ inr h
                ]
              ])
      ]
