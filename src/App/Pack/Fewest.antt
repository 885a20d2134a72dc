-- ===== src/App/Pack/Fewest.antt =====
-- No division of the steps into transactions that fit has fewer of them than the greedy loop of
-- app/src/market/data/actions/packTx.ts makes.
use kassandra.Base.{
  ℕ, ◌≡◌, refl, sym, ap, ◌∙◌, arith, ◌⊎◌, inl, inr, ◌≤◌, ◌+◌, List, [], ◌∷◌, ◌++◌, append_assoc,
  concat, All, true, ok, length, Bool-cases, append-nil, ok-inj, ltb, >>=-eq-ok, if◌then◌else◌, ◌*◌,
  length-append,
}
use mathlib.Core.Path.{subst}
use kassandra.Platform.{Platform}
use kassandra.Instructions.Payload.{Instruction}
use kassandra.App.Pack.{
  Web3, ActivateStep, PackedTx, Normal, max_tx_compute_units, packet_data_size,
  default_tx_compute_units, normalize_steps, total_compute_units, units_from, bodies, combined_ixs,
  wire_size, over_limits, pack_steps,
}
use kassandra.App.Pack.Facts.{
  normalize_steps-append, bodies-append, units_from-append, units_from_start,
}
use kassandra.App.Pack.Greedy.{
  Fits, Fits-over_limits, Packs, nothing, last, cut, join, pack_from-Packs,
}

-- Two divisions of one list: the first part of one ends inside the other's, or goes beyond it.
append-split {ℓ} :
    {A : Type ℓ} (q rest m : List A) (s : A) (steps : List A)
    → q ++ rest ≡ m ++ s ∷ steps
    → ((m' : List A) × (m ≡ q ++ m') × (rest ≡ m' ++ s ∷ steps))
      ⊎ ((r : List A) × (q ≡ m ++ (s ∷ r)))
append-split [] rest m s steps h = inl (m, refl, h)
append-split (x ∷ q) rest [] s steps h = inr (q, ground arith)
append-split (x ∷ q) rest (y ∷ m) s steps h = elim (append-split q rest m s steps (ground arith)) [
  | inl (m', e, f) ↦ inl (m', ground arith, f)
  | inr (r, e) ↦ inr (r, ground arith)
]

regroup {ℓ} :
    {A : Type ℓ} (a b t : List A) (s : A) → (a ++ b) ++ (s ∷ t) ≡ a ++ ((b ++ s ∷ []) ++ t)
regroup a b t s = append_assoc a b (s ∷ t) ∙ ap (λ r. a ++ r) (sym (append_assoc b (s ∷ []) t))

module _ (p : Platform) (w : Web3 p) (fee_payer : p.Address) where
  -- A message with instructions left out compiles too, and has no more signatures and bytes.
  abbrev pub Shrinks : Type 0
  Shrinks =
      (a b c : List (Instruction p.Address)) (k n : ℕ)
      → w.compile_message fee_payer (a ++ (b ++ c)) ≡ ok (k, n)
      → (k' : ℕ) × (n' : ℕ) × (w.compile_message fee_payer (a ++ c) ≡ ok (k', n'))
        × (k' ≤ k)
        × (n' ≤ n)

  -- The limit that a message sets does not change its size: the units have a fixed width.
  abbrev pub FixedWidth : Type 0
  FixedWidth =
      (u u' : ℕ) (b : List (Instruction p.Address))
      → w.compile_message fee_payer (w.set_compute_unit_limit u ∷ b)
        ≡ w.compile_message fee_payer (w.set_compute_unit_limit u' ∷ b)

  Compiles : List (Instruction p.Address) → ℕ → ℕ → Type 0
  Compiles ixs k n =
      (k' : ℕ) × (n' : ℕ) × (w.compile_message fee_payer ixs ≡ ok (k', n')) × (k' ≤ k) × (n' ≤ n)

  keep_middle :
      Shrinks
      → (pre a b c : List (Instruction p.Address)) (k n : ℕ)
      → w.compile_message fee_payer (pre ++ (a ++ (b ++ c))) ≡ ok (k, n)
      → Compiles (pre ++ b) k n
  unfolding Compiles
  keep_middle shrinks pre a b c k n h =
      let (k', n', e, f, g) = shrinks pre a (b ++ c) k n h in
      let e' : w.compile_message fee_payer ((pre ++ b) ++ (c ++ [])) ≡ ok (k', n') =
        rw (append-nil c, append_assoc pre b c) e in
      let (k'', n'', e'', f', g') = shrinks (pre ++ b) c [] k' n' e' in
      (k'', n'', rw⁻¹ (append-nil (pre ++ b)) e'', omega arith, omega arith)

  -- The merged instructions of a step list, from its units and bodies.
  abbrev render : ℕ → List (Instruction p.Address) → List (Instruction p.Address)
  render u body = if ltb default_tx_compute_units u then w.set_compute_unit_limit u ∷ body else body

  render_part :
      Shrinks
      → FixedWidth
      → (u u' : ℕ) (a b c : List (Instruction p.Address)) (k n : ℕ) → u' ≤ u
      → w.compile_message fee_payer (render u (a ++ (b ++ c))) ≡ ok (k, n)
      → Compiles (render u' b) k n
  unfolding Compiles
  render_part shrinks fixed u u' a b c k n l h =
      elim (Bool-cases (ltb default_tx_compute_units u)) [
        | inr small ↦ ground (arith, keep_middle shrinks [] a b c k n (ground arith))
        | inl large ↦
            let (k', n', e, f, g) =
              keep_middle shrinks (w.set_compute_unit_limit u ∷ []) a b c k n (ground arith) in
            elim (Bool-cases (ltb default_tx_compute_units u')) [
              | inl large' ↦ ground (arith, fixed u u' b)
              | inr small' ↦
                  let (k'', n'', e', f', g') =
                    shrinks [] (w.set_compute_unit_limit u ∷ []) b k' n' e in
                  ground arith
            ]
      ]

  -- `Fits`, read off the normalised steps.
  FitsNormal : List (Normal p) → Type 0
  FitsNormal ns =
      (k : ℕ) × (n : ℕ) × (w.compile_message fee_payer
          (render (units_from p w 0 ns) (bodies p w ns))
        ≡ ok (k, n))
      × (units_from p w 0 ns ≤ max_tx_compute_units)
      × (1 + k * 64 + n ≤ packet_data_size)

  Fits-FitsNormal :
      (steps : List (ActivateStep p))
      → Fits p w fee_payer steps
      → (ns : List (Normal p)) × (normalize_steps p w steps ≡ ok ns) × FitsNormal ns
  unfolding Fits FitsNormal total_compute_units combined_ixs wire_size
  Fits-FitsNormal steps (u, ixs, size, e, f, g, a, b) =
      let (ns, e', q) = >>=-eq-ok (normalize_steps p w steps) _ e in
      let same : ixs ≡ render (units_from p w 0 ns) (bodies p w ns) = ok-inj (sym f ∙ rw e' refl) in
      let ((k, n), e'', q') = >>=-eq-ok (w.compile_message fee_payer ixs) _ g in
      (ns, e', (k, n, rw⁻¹ same e'', omega (arith, ok-inj q), omega (arith, ok-inj q')))

  FitsNormal-Fits :
      (steps : List (ActivateStep p)) (ns : List (Normal p))
      → normalize_steps p w steps ≡ ok ns
      → FitsNormal ns
      → Fits p w fee_payer steps
  unfolding Fits FitsNormal total_compute_units combined_ixs wire_size
  FitsNormal-Fits steps ns e (k, n, f, a, b) = (
    units_from p w 0 ns,
    render (units_from p w 0 ns) (bodies p w ns),
    1 + k * 64 + n,
    rw e refl,
    rw e refl,
    rw f refl,
    a,
    b,
  )

  -- Part of a batch that fits, fits.
  Fits-part :
      Shrinks
      → FixedWidth
      → (xs ys zs : List (ActivateStep p)) → Fits p w fee_payer (xs ++ (ys ++ zs))
      → Fits p w fee_payer ys
  unfolding FitsNormal Compiles
  Fits-part shrinks fixed xs ys zs h =
      let (ns, e, (k, n, f, a, b)) = Fits-FitsNormal _ h in
      let (ms, rest, em, er, q) = normalize_steps-append p w xs (ys ++ zs) e in
      let (ks, ls, ek, el, q') = normalize_steps-append p w ys zs er in
      let body : bodies p w ns ≡ bodies p w ms ++ (bodies p w ks ++ bodies p w ls) =
        ap (bodies p w) q
        ∙ bodies-append p w ms rest
        ∙ ap (λ t. bodies p w ms ++ t) (ap (bodies p w) q' ∙ bodies-append p w ks ls) in
      let units : units_from p w 0 ks ≤ units_from p w 0 ns = omega (
        arith,
        ap (units_from p w 0) q,
        units_from-append p w ms rest 0,
        ap (units_from p w (units_from p w 0 ms)) q',
        units_from-append p w ks ls (units_from p w 0 ms),
        units_from_start p w ks (units_from p w 0 ms),
        units_from_start p w ls (units_from p w (units_from p w 0 ms) ks),
      ) in
      let (k', n', f', a', b') =
        render_part shrinks fixed (units_from p w 0 ns) (units_from p w 0 ks) (bodies p w ms)
          (bodies p w ks) (bodies p w ls) k n units
          (subst (λ t. w.compile_message fee_payer (render (units_from p w 0 ns) t) ≡ ok (k, n))
            body f) in
      FitsNormal-Fits ys ks ek (k', n', f', omega arith, omega arith)

  abbrev IsDivision : List (List (ActivateStep p)) → Type 0
  IsDivision parts = All (λ part. (length part ≤ 1) ⊎ Fits p w fee_payer part) parts

  past_cut :
      Shrinks
      → FixedWidth
      → (pre c t : List (ActivateStep p)) (s : ActivateStep p) (q : List (ActivateStep p))
      → (length q ≤ 1) ⊎ Fits p w fee_payer q
      → over_limits p w fee_payer (c ++ s ∷ []) ≡ ok true
      → q ≡ (pre ++ c) ++ (s ∷ t)
      → 1 ≤ length c
      → ⊥
  past_cut sh fw pre c t s q (inl l) o e l' =
      omega (arith, ap length e, length-append (pre ++ c) (s ∷ t), length-append pre c)
  past_cut sh fw pre c t s q (inr fits) o e l' =
      let whole : q ≡ pre ++ ((c ++ s ∷ []) ++ t) = e ∙ regroup pre c t s in
      let none_over =
        Fits-over_limits p w fee_payer _
          (Fits-part sh fw pre (c ++ s ∷ []) t (subst (Fits p w fee_payer) whole fits)) in
      cc

  Packs-fewest :
      Shrinks
      → FixedWidth
      → {c steps : List (ActivateStep p)} {bs : List (PackedTx p)} → Packs p w fee_payer c steps bs
      → (pre : List (ActivateStep p)) (parts : List (List (ActivateStep p)))
      → concat parts ≡ (pre ++ c) ++ steps
      → IsDivision parts
      → length bs ≤ length parts
  Packs-fewest sh fw nothing pre parts e d = omega arith
  Packs-fewest sh fw {c = c} (last h) pre [] e d =
      omega (arith, ap length e, length-append (pre ++ c) [], length-append pre c)
  Packs-fewest sh fw {c = c} (last h) pre (q ∷ parts) e d = omega arith
  Packs-fewest sh fw {c = c} (cut {s = s} {ss = ss} {bs = bs} h o r) pre [] e d =
      omega (arith, ap length e, length-append (pre ++ c) (s ∷ ss), length-append pre c)
  Packs-fewest sh fw {c = c} (cut {s = s} {ss = ss} {bs = bs} h o r) pre (q ∷ parts) e (dq, d) =
      elim (append-split q (concat parts) (pre ++ c) s ss e) [
        | inl (m', e', f) ↦
            omega (arith, Packs-fewest sh fw r m' parts (f ∙ sym (append_assoc m' (s ∷ []) ss)) d)
        | inr (t, e') ↦ absurd (past_cut sh fw pre c t s q dq o e' (omega arith))
      ]
  Packs-fewest sh fw {c = c} (join {s} {ss = ss} h r) pre parts e d =
      Packs-fewest sh fw r pre parts
        (e ∙ regroup pre c ss s ∙ sym (append_assoc pre (c ++ s ∷ []) ss)) d

  -- If leaving out instructions shrinks a message and a limit has one width, no division of the
  -- steps, in their order, into parts of at most one step or within the limits has fewer parts than
  -- the packer makes batches.
  pub pack_steps_fewest :
      Shrinks
      → FixedWidth
      → (steps : List (ActivateStep p)) (bs : List (PackedTx p))
      → pack_steps p w fee_payer steps ≡ ok bs
      → (parts : List (List (ActivateStep p))) → concat parts ≡ steps
      → All (λ part. (length part ≤ 1) ⊎ Fits p w fee_payer part) parts
      → length bs ≤ length parts
  unfolding pack_steps
  pack_steps_fewest sh fw steps bs h parts e d =
      Packs-fewest sh fw (pack_from-Packs p w fee_payer [] steps bs h) [] parts e d
