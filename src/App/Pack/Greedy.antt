-- ===== src/App/Pack/Greedy.antt =====
-- The loop `packSteps` of app/src/market/data/actions/packTx.ts: order, limits and greed.
use kassandra.Base.{
  ℕ, ◌≡◌, refl, sym, ap, ◌∙◌, arith, ◌⊎◌, inl, inr, Bool-cases, ◌≤◌, List, [], ◌∷◌, ◌++◌,
  append_assoc, concat, map, All, Bool, true, false, ok, ltb, ◌>>=◌, >>=-eq-ok, length, ok-inj,
  append-nil,
}
use mathlib.Core.Path.{ap₂, subst}
use kassandra.Platform.{Platform}
use kassandra.App.Pack.{
  Web3, ActivateStep, PackedTx, max_tx_compute_units, packet_data_size, total_compute_units,
  combined_ixs, wire_size, over_limits, must_close, close_batch, pack_from, pack_steps,
}

module _ (p : Platform) (w : Web3 p) (fee_payer : p.Address) where
  -- The steps fit one transaction: their units and the bytes of the message are within the limits.
  unfoldable pub Fits : List (ActivateStep p) → Type 0
  Fits steps =
      (units : ℕ) × (ixs : List _) × (size : ℕ) × (total_compute_units p w steps ≡ ok units)
      × (combined_ixs p w steps ≡ ok ixs)
      × (wire_size p w fee_payer ixs ≡ ok size)
      × (units ≤ max_tx_compute_units)
      × (size ≤ packet_data_size)

  pub over_limits-Fits :
      (steps : List (ActivateStep p)) → over_limits p w fee_payer steps ≡ ok false → Fits steps
  unfolding over_limits Fits
  over_limits-Fits steps h =
      let (u, e, h') = >>=-eq-ok (total_compute_units p w steps) _ h in
      elim (Bool-cases (ltb max_tx_compute_units u)) [
        | inl t ↦ absurd (ground arith)
        | inr f ↦
            let (ixs, e', h'') = >>=-eq-ok (combined_ixs p w steps) _ (rw f at h') in
            let (n, e'', h3) = >>=-eq-ok (wire_size p w fee_payer ixs) _ h'' in
            (u, ixs, n, e, e', e'', ground arith, ground arith)
      ]

  pub Fits-over_limits :
      (steps : List (ActivateStep p)) → Fits steps → over_limits p w fee_payer steps ≡ ok false
  unfolding over_limits Fits
  Fits-over_limits steps (u, ixs, n, e, f, g, a, b) = rw (e) (ground arith)

  -- A batch carries the merged instructions of its steps, at least one, and fits unless it is one step.
  abbrev pub IsBatch : PackedTx p → Type 0
  IsBatch b =
      (combined_ixs p w b.steps ≡ ok b.ixs)
      × (1 ≤ length b.steps)
      × ((length b.steps ≡ 1) ⊎ Fits b.steps)

  close_batch_lem :
      (c : List (ActivateStep p)) (b : PackedTx p)
      → close_batch p w c ≡ ok b
      → (b.steps ≡ c) × (combined_ixs p w c ≡ ok b.ixs)
  unfolding close_batch
  close_batch_lem c b h = let (ixs, e, h') = >>=-eq-ok (combined_ixs p w c) _ h in ground arith

  pub Open : List (ActivateStep p) → Type 0
  Open [] = Unit
  Open (c ∷ cs) = (cs ≡ []) ⊎ Fits (c ∷ cs)

  Open-Batch :
      (c : List (ActivateStep p)) (b : PackedTx p)
      → 1 ≤ length c
      → Open c
      → close_batch p w c ≡ ok b
      → IsBatch b
  unfolding Open
  Open-Batch [] b l o h = absurd (omega arith)
  Open-Batch (c ∷ cs) b l o h =
      let (e, f) = close_batch_lem (c ∷ cs) b h in (ground arith, ground arith, ground arith)

  -- The runs of the loop that return: what is open, what is to come, and what is still pushed.
  pub data Packs : List (ActivateStep p) → List (ActivateStep p) → List (PackedTx p) → Type 0 where
    nothing : Packs [] [] []
    last :
        {c : ActivateStep p} {cs : List (ActivateStep p)} {b : PackedTx p}
        → close_batch p w (c ∷ cs) ≡ ok b
        → Packs (c ∷ cs) [] (b ∷ [])
    cut :
        {c s : ActivateStep p} {cs ss : List (ActivateStep p)} {b : PackedTx p}
        {bs : List (PackedTx p)}
        → close_batch p w (c ∷ cs) ≡ ok b
        → over_limits p w fee_payer ((c ∷ cs) ++ s ∷ []) ≡ ok true
        → Packs (s ∷ []) ss bs
        → Packs (c ∷ cs) (s ∷ ss) (b ∷ bs)
    join :
        {s : ActivateStep p} {cs ss : List (ActivateStep p)} {bs : List (PackedTx p)}
        → must_close p w fee_payer cs s ≡ ok false
        → Packs (cs ++ s ∷ []) ss bs
        → Packs cs (s ∷ ss) bs

  after_close :
      (c s : ActivateStep p) (cs ss : List (ActivateStep p)) (bs : List (PackedTx p)) (full : Bool)
      → must_close p w fee_payer (c ∷ cs) s ≡ ok full
      → elim full [
        | true ↦ close_batch p w (c ∷ cs) >>= λ b.
            pack_from p w fee_payer (s ∷ []) ss >>= λ bs. ok (b ∷ bs)
        | false ↦ pack_from p w fee_payer ((c ∷ cs) ++ s ∷ []) ss
      ]
        ≡ ok bs
      → ((bs : List (PackedTx p))
          → pack_from p w fee_payer (s ∷ []) ss ≡ ok bs
          → Packs (s ∷ []) ss bs)
      → (pack_from p w fee_payer ((c ∷ cs) ++ s ∷ []) ss ≡ ok bs → Packs ((c ∷ cs) ++ s ∷ []) ss bs)
      → Packs (c ∷ cs) (s ∷ ss) bs
  unfolding must_close
  after_close c s cs ss bs true e h f g =
      let (b, e', h') = >>=-eq-ok (close_batch p w (c ∷ cs)) _ h in
      let (bs', e'', h'') = >>=-eq-ok (pack_from p w fee_payer (s ∷ []) ss) _ h' in
      subst (λ t. Packs (c ∷ cs) (s ∷ ss) t) (ok-inj h'') (cut e' e (f bs' e''))
  after_close c s cs ss bs false e h f g = join e (g h)

  pub pack_from-Packs :
      (c steps : List (ActivateStep p)) (bs : List (PackedTx p))
      → pack_from p w fee_payer c steps ≡ ok bs
      → Packs c steps bs
  unfolding pack_from
  pack_from-Packs [] [] bs h = subst (λ t. Packs [] [] t) (ok-inj h) nothing
  pack_from-Packs (c ∷ cs) [] bs h =
      let (b, e, h') = >>=-eq-ok (close_batch p w (c ∷ cs)) _ h in
      subst (λ t. Packs (c ∷ cs) [] t) (ok-inj h') (last e)
  pack_from-Packs [] (s ∷ ss) bs h =
      join {s = s} {cs = []} (unfold must_close in refl)
        (pack_from-Packs (s ∷ []) ss bs (unfold must_close in h))
  pack_from-Packs (c ∷ cs) (s ∷ ss) bs h =
      let (full, e, h') = >>=-eq-ok (must_close p w fee_payer (c ∷ cs) s) _ h in
      after_close c s cs ss bs full e h' (pack_from-Packs (s ∷ []) ss)
        (pack_from-Packs ((c ∷ cs) ++ s ∷ []) ss bs)

  join-Open :
      (c : List (ActivateStep p)) (s : ActivateStep p)
      → must_close p w fee_payer c s ≡ ok false
      → Open (c ++ s ∷ [])
  unfolding must_close Open
  join-Open [] s h = inl refl
  join-Open (c ∷ cs) s h = inr (over_limits-Fits _ h)

  Packs-concat :
      {c steps : List (ActivateStep p)} {bs : List (PackedTx p)}
      → Packs c steps bs
      → concat (map (λ b. b.steps) bs) ≡ c ++ steps
  Packs-concat nothing = refl
  Packs-concat {c = c} (last h) = ap (λ t. t ++ []) (close_batch_lem c _ h).0
  Packs-concat {c = c} (cut h o r) = ap₂ ◌++◌ (close_batch_lem c _ h).0 (Packs-concat r)
  Packs-concat {c = c} (join {s} {ss = ss} h r) = Packs-concat r ∙ append_assoc c (s ∷ []) ss

  Packs-IsBatch :
      {c steps : List (ActivateStep p)} {bs : List (PackedTx p)}
      → Packs c steps bs
      → Open c
      → All IsBatch bs
  Packs-IsBatch nothing o = tt
  Packs-IsBatch (last h) o = (Open-Batch _ _ (omega arith) o h, tt)
  Packs-IsBatch (cut h full r) o =
      (Open-Batch _ _ (omega arith) o h, Packs-IsBatch r (unfold Open in inl refl))
  Packs-IsBatch {c = c} (join {s} h r) o = Packs-IsBatch r (join-Open c s h)

  -- The steps of the first batch begin with the open ones.
  abbrev pub Begins : List (ActivateStep p) → List (PackedTx p) → Type 0
  Begins c [] = c ≡ []
  Begins c (b ∷ bs) = (r : List (ActivateStep p)) × (b.steps ≡ c ++ r)

  Begins-shorter :
      (c : List (ActivateStep p)) (s : ActivateStep p) (bs : List (PackedTx p))
      → Begins (c ++ s ∷ []) bs
      → Begins c bs
  Begins-shorter [] s [] h = refl
  Begins-shorter (x ∷ c) s [] h = cc
  Begins-shorter c s (b ∷ bs) (r, e) = (s ∷ r, e ∙ append_assoc c (s ∷ []) r)

  Packs-Begins :
      {c steps : List (ActivateStep p)} {bs : List (PackedTx p)} → Packs c steps bs → Begins c bs
  Packs-Begins nothing = refl
  Packs-Begins {c = c} (last h) = ([], (close_batch_lem c _ h).0 ∙ sym (append-nil c))
  Packs-Begins {c = c} (cut h o r) = ([], (close_batch_lem c _ h).0 ∙ sym (append-nil c))
  Packs-Begins {c = c} {bs = bs} (join {s} h r) = Begins-shorter c s bs (Packs-Begins r)

  -- Each batch is cut only where the next step would have put it over a limit.
  abbrev pub Greedy : List (PackedTx p) → Type 0
  Greedy [] = Unit
  Greedy (b ∷ []) = Unit
  Greedy (b ∷ b' ∷ bs) =
      ((s : ActivateStep p) × (r : List (ActivateStep p)) × (b'.steps ≡ s ∷ r)
        × (over_limits p w fee_payer (b.steps ++ s ∷ []) ≡ ok true))
      × Greedy (b' ∷ bs)

  Greedy-cons :
      (b : PackedTx p) (bs : List (PackedTx p)) (s : ActivateStep p)
      → over_limits p w fee_payer (b.steps ++ s ∷ []) ≡ ok true
      → Begins (s ∷ []) bs
      → Greedy bs
      → Greedy (b ∷ bs)
  Greedy-cons b [] s h f g = tt
  Greedy-cons b (b' ∷ bs) s h (r, e) g = ((s, r, e, h), g)

  Packs-Greedy :
      {c steps : List (ActivateStep p)} {bs : List (PackedTx p)} → Packs c steps bs → Greedy bs
  Packs-Greedy nothing = tt
  Packs-Greedy (last h) = tt
  Packs-Greedy {c = c} (cut {b = b} {bs = bs} h o r) =
      Greedy-cons b bs _ (rw (close_batch_lem c _ h).0 o) (Packs-Begins r) (Packs-Greedy r)
  Packs-Greedy (join h r) = Packs-Greedy r

  -- Where the packer returns, its batches hold the given steps, each once and in order.
  pub pack_steps_order :
      (steps : List (ActivateStep p)) (bs : List (PackedTx p))
      → pack_steps p w fee_payer steps ≡ ok bs
      → concat (map (λ b. b.steps) bs) ≡ steps
  unfolding pack_steps
  pack_steps_order steps bs h = Packs-concat (pack_from-Packs [] steps bs h)

  -- Where the packer returns, each batch carries the merged instructions of its steps, has at least
  -- one step, and is of one step or within both limits: the units and the bytes of the message.
  pub pack_steps_within_limits :
      (steps : List (ActivateStep p)) (bs : List (PackedTx p))
      → pack_steps p w fee_payer steps ≡ ok bs
      → All IsBatch bs
  unfolding pack_steps
  pack_steps_within_limits steps bs h =
      Packs-IsBatch (pack_from-Packs [] steps bs h) (unfold Open in tt)

  -- Where the packer returns, each batch but the last is over a limit as soon as the first step of
  -- the next batch is added to it.
  pub pack_steps-Greedy :
      (steps : List (ActivateStep p)) (bs : List (PackedTx p))
      → pack_steps p w fee_payer steps ≡ ok bs
      → Greedy bs
  unfolding pack_steps
  pack_steps-Greedy steps bs h = Packs-Greedy (pack_from-Packs [] steps bs h)
