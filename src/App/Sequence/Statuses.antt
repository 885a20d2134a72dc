-- ===== src/App/Sequence/Statuses.antt =====
-- What the writes of app/src/market/hooks/useActionSequence.ts do to the statuses, index by index.
use kassandra.Base.{
  ℕ, zero, suc, ◌<◌, ◌≡◌, ◌≢◌, refl, sym, ap, ◌∙◌, arith, List, [], ◌∷◌, Bool, true, false, ◌||◌,
  some, length, get_elem?, set, take, drop, map, concat, ◌==◌, Bool-cases, Option-cases, leb, inl,
  inr, ◌⊎◌, length-append, length-drop,
}
use mathlib.Core.Path.{subst}
use kassandra.Platform.{Platform}
use kassandra.App.Pack.{Web3, PackedTx}
use kassandra.App.Sequence.{
  World, Failure, StepStatus, running, done, failed, Ended, finished, stopped, set_each,
  send_batches, deliver, send_one_by_one, send_presigned,
}

pub length-set {ℓ} : {A : Type ℓ} (xs : List A) (i : ℕ) (v : A) → length (set xs i v) ≡ length xs
length-set [] i v = refl
length-set (x ∷ xs) zero v = refl
length-set (x ∷ xs) (suc i) v = ap suc (length-set xs i v)

pub get_elem?-set_same {ℓ} :
    {A : Type ℓ} (xs : List A) (i : ℕ) (v : A) → i < length xs → get_elem? (set xs i v) i ≡ some v
get_elem?-set_same [] i v l = absurd (omega arith)
get_elem?-set_same (x ∷ xs) zero v l = refl
get_elem?-set_same (x ∷ xs) (suc i) v l = get_elem?-set_same xs i v (omega arith)

pub get_elem?-set_other {ℓ} :
    {A : Type ℓ} (xs : List A) (i j : ℕ) (v : A) → i ≢ j → get_elem? (set xs i v) j ≡ get_elem? xs j
get_elem?-set_other [] i j v n = refl
get_elem?-set_other (x ∷ xs) zero zero v n = absurd (n refl)
get_elem?-set_other (x ∷ xs) zero (suc j) v n = refl
get_elem?-set_other (x ∷ xs) (suc i) zero v n = refl
get_elem?-set_other (x ∷ xs) (suc i) (suc j) v n = get_elem?-set_other xs i j v (λ e. n (ap suc e))

pub Sum-cases {ℓ κ} :
    {A : Type ℓ} {B : Type κ} (r : A ⊎ B) → ((a : A) × (r ≡ inl a)) ⊎ ((b : B) × (r ≡ inr b))
Sum-cases (inl a) = inl (a, refl)
Sum-cases (inr b) = inr (b, refl)

pub stopped≢finished : Path Ended stopped finished → ⊥
stopped≢finished h = cc

abbrev pub elem : ℕ → List ℕ → Bool
elem j [] = false
elem j (i ∷ idxs) = (i == j) || elem j idxs

elem_split :
    (n j : ℕ) (idxs : List ℕ) → elem j idxs ≡ (elem j (take n idxs) || elem j (drop n idxs))
elem_split zero j idxs = refl
elem_split (suc n) j [] = refl
elem_split (suc n) j (i ∷ idxs) = ground (arith, elem_split n j idxs)

module _ (p : Platform) where
  abbrev pub IsDoneAt : List (StepStatus p) → ℕ → Type 0
  IsDoneAt statuses j = (signature : p.Text) × (get_elem? statuses j ≡ some (done signature))

  pub length-set_each :
      (idxs : List ℕ) (s : StepStatus p) (xs : List (StepStatus p))
      → length (set_each p idxs s xs) ≡ length xs
  unfolding set_each
  length-set_each [] s xs = refl
  length-set_each (i ∷ idxs) s xs = length-set_each idxs s (set xs i s) ∙ length-set xs i s

  pub set_each_out :
      (idxs : List ℕ) (s : StepStatus p) (xs : List (StepStatus p)) (j : ℕ)
      → elem j idxs ≡ false
      → get_elem? (set_each p idxs s xs) j ≡ get_elem? xs j
  unfolding set_each
  set_each_out [] s xs j h = refl
  set_each_out (i ∷ idxs) s xs j h =
      set_each_out idxs s (set xs i s) j (ground arith)
      ∙ get_elem?-set_other xs i j s (λ e. ground arith)

  pub set_each_in :
      (idxs : List ℕ) (s : StepStatus p) (xs : List (StepStatus p)) (j : ℕ)
      → elem j idxs ≡ true
      → j < length xs
      → get_elem? (set_each p idxs s xs) j ≡ some s
  unfolding set_each
  set_each_in [] s xs j h l = cc
  set_each_in (i ∷ idxs) s xs j h l = elim (Bool-cases (elem j idxs)) [
    | inl e ↦ set_each_in idxs s (set xs i s) j e (omega (arith, length-set xs i s))
    | inr e ↦ set_each_out idxs s (set xs i s) j e ∙ rw (same e) (get_elem?-set_same xs j s l)
  ]
    where
      same : elem j idxs ≡ false → i ≡ j
      same e = ground arith

  module _ (send : ℕ → PackedTx p → Failure p ⊎ p.Text) where
    -- The statuses after a batch that went through, and after one that failed.
    abbrev pub after : List ℕ → StepStatus p → List (StepStatus p) → List (StepStatus p)
    after mine s xs = set_each p mine s (set_each p mine running xs)

    pub length-after :
        (mine : List ℕ) (s : StepStatus p) (xs : List (StepStatus p))
        → length (after mine s xs) ≡ length xs
    length-after mine s xs = length-set_each mine s _ ∙ length-set_each mine running xs

    after_out :
        (mine : List ℕ) (s : StepStatus p) (xs : List (StepStatus p)) (j : ℕ)
        → elem j mine ≡ false
        → get_elem? (after mine s xs) j ≡ get_elem? xs j
    after_out mine s xs j h = set_each_out mine s _ j h ∙ set_each_out mine running xs j h

    pub sent :
        (k : ℕ) (idxs : List ℕ) (b : PackedTx p) (bs : List (PackedTx p)) (xs : List (StepStatus p))
        (x : p.Text)
        → send k b ≡ inr x
        → send_batches p send k idxs (b ∷ bs) xs
          ≡ send_batches p send
              (suc k)
              (drop (length b.steps) idxs)
              bs
              (after (take (length b.steps) idxs) (done x) xs)
    unfolding send_batches
    sent k idxs b bs xs x e = ground arith

    pub not_sent :
        (k : ℕ) (idxs : List ℕ) (b : PackedTx p) (bs : List (PackedTx p)) (xs : List (StepStatus p))
        (f : Failure p)
        → send k b ≡ inl f
        → send_batches p send k idxs (b ∷ bs) xs
          ≡ (after (take (length b.steps) idxs) (failed f) xs, stopped)
    unfolding send_batches
    not_sent k idxs b bs xs f e = ground arith

    pub length-send_batches :
        (k : ℕ) (idxs : List ℕ) (batches : List (PackedTx p)) (xs : List (StepStatus p))
        → length (send_batches p send k idxs batches xs).0 ≡ length xs
    unfolding send_batches
    length-send_batches k idxs [] xs = refl
    length-send_batches k idxs (b ∷ bs) xs =
        let mine = take (length b.steps) idxs in
        elim (Sum-cases (send k b)) [
          | inl (f, e) ↦
              ap (λ r. length r.0) (not_sent k idxs b bs xs f e) ∙ length-after mine (failed f) xs
          | inr (x, e) ↦
              ap (λ r. length r.0) (sent k idxs b bs xs x e)
              ∙ length-send_batches (suc k) (drop (length b.steps) idxs) bs (after mine (done x) xs)
              ∙ length-after mine (done x) xs
        ]

    pub send_batches_out :
        (k : ℕ) (idxs : List ℕ) (batches : List (PackedTx p)) (xs : List (StepStatus p)) (j : ℕ)
        → elem j idxs ≡ false
        → get_elem? (send_batches p send k idxs batches xs).0 j ≡ get_elem? xs j
    unfolding send_batches
    send_batches_out k idxs [] xs j h = refl
    send_batches_out k idxs (b ∷ bs) xs j h =
        let mine = take (length b.steps) idxs in
        let parts = elem_split (length b.steps) j idxs in
        elim (Sum-cases (send k b)) [
          | inl (f, e) ↦
              ap (λ r. get_elem? r.0 j) (not_sent k idxs b bs xs f e)
              ∙ after_out mine (failed f) xs j (ground arith)
          | inr (x, e) ↦
              ap (λ r. get_elem? r.0 j) (sent k idxs b bs xs x e)
              ∙ send_batches_out (suc k) (drop (length b.steps) idxs) bs (after mine (done x) xs) j
                  (ground arith)
              ∙ after_out mine (done x) xs j (ground arith)
        ]

    -- What was done or to be sent is done or to be sent after the batch.
    still :
        (k : ℕ) (idxs : List ℕ) (b : PackedTx p) (xs : List (StepStatus p)) (x : p.Text) (j : ℕ)
        → j < length xs
        → (elem j idxs ≡ true) ⊎ IsDoneAt xs j
        → (elem j (drop (length b.steps) idxs) ≡ true)
          ⊎ IsDoneAt (after (take (length b.steps) idxs) (done x) xs) j
    still k idxs b xs x j l d =
        let mine = take (length b.steps) idxs in
        let parts = elem_split (length b.steps) j idxs in
        elim (Bool-cases (elem j mine)) [
          | inl e ↦
              inr (
                x,
                set_each_in mine (done x) _ j e (omega (arith, length-set_each mine running xs)),
              )
          | inr e ↦ elim d [
            | inl h ↦ inl (ground arith)
            | inr (y, h) ↦ inr (y, after_out mine (done x) xs j e ∙ h)
          ]
        ]

    pub send_batches_finished :
        (k : ℕ) (idxs : List ℕ) (batches : List (PackedTx p)) (xs : List (StepStatus p)) (j : ℕ)
        → length idxs ≡ length (concat (map (λ b. b.steps) batches))
        → j < length xs
        → (elem j idxs ≡ true) ⊎ IsDoneAt xs j
        → (send_batches p send k idxs batches xs).1 ≡ finished
        → IsDoneAt (send_batches p send k idxs batches xs).0 j
    unfolding send_batches
    send_batches_finished k idxs [] xs j e l (inr d) h = d
    send_batches_finished k [] [] xs j e l (inl d) h = cc
    send_batches_finished k (i ∷ idxs) [] xs j e l (inl d) h = absurd (omega arith)
    send_batches_finished k idxs (b ∷ bs) xs j e l d h =
        let mine = take (length b.steps) idxs in
        let rest = drop (length b.steps) idxs in
        elim (Sum-cases (send k b)) [
          | inl (f, e') ↦
              absurd (stopped≢finished (sym (ap (λ r. r.1) (not_sent k idxs b bs xs f e')) ∙ h))
          | inr (x, e') ↦
              subst (λ r. IsDoneAt r.0 j) (sym (sent k idxs b bs xs x e'))
                (send_batches_finished (suc k) rest bs (after mine (done x) xs) j
                  (omega (
                    arith,
                    length-drop (length b.steps) idxs,
                    length-append b.steps (concat (map (λ b. b.steps) bs)),
                  ))
                  (omega (arith, length-after mine (done x) xs)) (still k idxs b xs x j l d)
                  (sym (ap (λ r. r.1) (sent k idxs b bs xs x e')) ∙ h))
        ]

  module _ (w : Web3 p) (world : World p) where
    -- Every way to deliver is the loop over the batches, or one refusal to sign them all.
    pub deliver_cases :
        (idxs : List ℕ) (bs : List (PackedTx p)) (xs : List (StepStatus p))
        → ((send : ℕ → PackedTx p → Failure p ⊎ p.Text) × (deliver p w world idxs bs xs
              ≡ send_batches p send 0 idxs bs xs))
          ⊎ ((f : Failure p) × (deliver p w world idxs bs xs
                ≡ (set_each p idxs (failed f) xs, stopped)))
    unfolding deliver
    deliver_cases idxs bs xs = elim (Bool-cases (leb (length bs) 1)) [
      | inl e ↦ inl (send_one_by_one p w world, ground arith)
      | inr e ↦ elim (Option-cases world.sign_all) [
        | inl e' ↦ inl (send_one_by_one p w world, ground arith)
        | inr (sign, e') ↦ elim (Sum-cases (sign (map (λ b. b.ixs) bs))) [
          | inl (f, e'') ↦ inr (f, ground arith)
          | inr (signed, e'') ↦ inl (send_presigned p w world signed, ground arith)
        ]
      ]
    ]
