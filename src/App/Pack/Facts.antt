-- ===== src/App/Pack/Facts.antt =====
-- Facts on the normalised steps of app/src/market/data/actions/packTx.ts, and what a batch carries.
use kassandra.Base.{
  ℕ, ◌≡◌, refl, sym, ap, ◌∙◌, arith, ◌⊎◌, inl, inr, ◌≤◌, ◌<◌, ◌+◌, List, [], ◌∷◌, ◌++◌,
  append_assoc, true, false, Option, some, ok, >>=-eq-ok, append-nil, Bool-cases,
}
use kassandra.Platform.{Platform}
use kassandra.Instructions.Payload.{Instruction}
use kassandra.App.Pack.{
  or_else, Web3, ActivateStep, Normal, default_tx_compute_units, is_compute_unit_limit_ix,
  normalize_from, normalize_step, normalize_steps, units_from, bodies, total_compute_units,
  combined_ixs,
}

module _ (p : Platform) (w : Web3 p) where
  -- The instructions of a list that are not limits, in order.
  abbrev pub without_limits : List (Instruction p.Address) → List (Instruction p.Address)
  without_limits [] = []
  without_limits (ix ∷ ixs) = elim (is_compute_unit_limit_ix p w ix) [
    | true ↦ without_limits ixs
    | false ↦ ix ∷ without_limits ixs
  ]

  abbrev pub all_ixs : List (ActivateStep p) → List (Instruction p.Address)
  all_ixs [] = []
  all_ixs (s ∷ ss) = s.ixs ++ all_ixs ss

  pub without_limits-append :
      (xs ys : List (Instruction p.Address))
      → without_limits (xs ++ ys) ≡ without_limits xs ++ without_limits ys
  without_limits-append [] ys = refl
  without_limits-append (x ∷ xs) ys = ground (arith, without_limits-append xs ys)

  pub normalize_from-body :
      (ixs : List (Instruction p.Address)) (d : Option ℕ) (body : List (Instruction p.Address))
      → (n : Normal p) → normalize_from p w d body ixs ≡ ok n
      → n.body ≡ body ++ without_limits ixs
  unfolding normalize_from
  normalize_from-body [] d body n h = ground (arith, append-nil body)
  normalize_from-body (ix ∷ ixs) d body n h = elim (Bool-cases (is_compute_unit_limit_ix p w ix)) [
    | inl e ↦
        let (u, e', h') =
          >>=-eq-ok (w.decode_units ix) (λ u. normalize_from p w (some (or_else d 0 + u)) body ixs)
            (sym (ground arith) ∙ h) in
        ground (arith, normalize_from-body ixs (some (or_else d 0 + u)) body n h')
    | inr e ↦ ground (
      arith,
      normalize_from-body ixs d (body ++ ix ∷ []) n (ground arith),
      append_assoc body (ix ∷ []) (without_limits ixs),
    )
  ]

  pub normalize_steps-append :
      (xs ys : List (ActivateStep p)) {ns : List (Normal p)}
      → normalize_steps p w (xs ++ ys) ≡ ok ns
      → (ms : List (Normal p)) × (ks : List (Normal p)) × (normalize_steps p w xs ≡ ok ms)
        × (normalize_steps p w ys ≡ ok ks)
        × (ns ≡ ms ++ ks)
  unfolding normalize_steps
  normalize_steps-append [] ys {ns = ns} h = ([], ns, refl, h, refl)
  normalize_steps-append (x ∷ xs) ys h =
      let (n, e, h') = >>=-eq-ok (normalize_step p w x) _ h in
      let (ns, e', h'') = >>=-eq-ok (normalize_steps p w (xs ++ ys)) _ h' in
      let (ms, ks, f, g, q) = normalize_steps-append xs ys e' in
      (n ∷ ms, ks, rw (e, f) refl, g, ground arith)

  pub bodies-append :
      (ms ks : List (Normal p)) → bodies p w (ms ++ ks) ≡ bodies p w ms ++ bodies p w ks
  bodies-append [] ks = refl
  bodies-append (m ∷ ms) ks =
      ap (λ t. m.body ++ t) (bodies-append ms ks)
      ∙ sym (append_assoc m.body (bodies p w ms) (bodies p w ks))

  pub units_from-append :
      (ms ks : List (Normal p)) (s : ℕ)
      → units_from p w s (ms ++ ks) ≡ units_from p w (units_from p w s ms) ks
  units_from-append [] ks s = refl
  units_from-append (m ∷ ms) ks s = units_from-append ms ks (s + m.units)

  pub units_from_start :
      (ns : List (Normal p)) (s : ℕ) → units_from p w s ns ≡ s + units_from p w 0 ns
  units_from_start [] s = omega arith
  units_from_start (n ∷ ns) s =
      omega (arith, units_from_start ns (s + n.units), units_from_start ns (0 + n.units))

  normalize_steps-bodies :
      (steps : List (ActivateStep p)) (ns : List (Normal p))
      → normalize_steps p w steps ≡ ok ns
      → bodies p w ns ≡ without_limits (all_ixs steps)
  unfolding normalize_steps normalize_step
  normalize_steps-bodies [] ns h = ground arith
  normalize_steps-bodies (x ∷ xs) ns h =
      let (n, e, h') = >>=-eq-ok (normalize_step p w x) _ h in
      let (ns', e', h'') = >>=-eq-ok (normalize_steps p w xs) _ h' in
      ground (
        arith,
        normalize_from-body x.ixs x.compute_units [] n e,
        normalize_steps-bodies xs ns' e',
        without_limits-append x.ixs (all_ixs xs),
      )

  -- Merged instructions are those of the steps in order, less every limit; with one limit in front,
  -- for the sum of the units, where the sum is over the default, and no limit where it is not.
  pub combined_ixs_lem :
      (steps : List (ActivateStep p)) (ixs : List (Instruction p.Address))
      → combined_ixs p w steps ≡ ok ixs
      → (units : ℕ) × (total_compute_units p w steps ≡ ok units)
        × (((units ≤ default_tx_compute_units) × (ixs ≡ without_limits (all_ixs steps)))
            ⊎ ((default_tx_compute_units < units)
                × (ixs ≡ w.set_compute_unit_limit units ∷ without_limits (all_ixs steps))))
  unfolding combined_ixs total_compute_units
  combined_ixs_lem steps ixs h =
      let (ns, e, h') = >>=-eq-ok (normalize_steps p w steps) _ h in
      let b = normalize_steps-bodies steps ns e in
      (units_from p w 0 ns, rw e refl, ground (arith, b))
