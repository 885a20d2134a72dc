-- ===== src/App/Sequence/Resume.antt =====
-- The resume point of `initialRunState`, app/src/market/hooks/useActionSequence.ts.
use kassandra.Base.{
  All, take, drop, map, ◌⊎◌, Bool, ℕ, zero, suc, ◌≤◌, ◌<◌, ◌≡◌, ◌≢◌, refl, sym, ap, ◌∙◌, arith,
  List, [], ◌∷◌, true, false, none, some, length, replicate, length-replicate, get_elem?, ◌==◌,
  ==_iff, Bool-cases, inl, inr, if◌then◌else◌,
}
use mathlib.Core.Path.{subst}
use kassandra.Platform.{Platform}
use kassandra.App.Sequence.Clear.{
  length-clear_from, clear_from_before, clear_from_after, cleared, take-clear_from, drop-clear_from,
  clear_from_here,
}
use kassandra.App.Sequence.{
  Failure, StepStatus, pending, done, failed, is_done, first_not_done, clear_from, resume_point,
  initial_run_state,
}

All-take {ℓ κ} :
    {A : Type ℓ} (P : A → Type κ) (k : ℕ) (xs : List A)
    → ((i : ℕ) → i < k → (x : A) → get_elem? xs i ≡ some x → P x)
    → All P (take k xs)
All-take P zero xs h = tt
All-take P (suc k) [] h = tt
All-take P (suc k) (x ∷ xs) h =
    (h 0 (omega arith) x refl, All-take P k xs (λ i l y e. h (suc i) (omega arith) y e))

All-drop {ℓ κ} :
    {A : Type ℓ} (P : A → Type κ) (k : ℕ) (xs : List A)
    → ((i : ℕ) → k ≤ i → (x : A) → get_elem? xs i ≡ some x → P x)
    → All P (drop k xs)
All-drop P zero [] h = tt
All-drop P zero (x ∷ xs) h =
    (h 0 (omega arith) x refl, All-drop P zero xs (λ i l y e. h (suc i) (omega arith) y e))
All-drop P (suc k) [] h = tt
All-drop P (suc k) (x ∷ xs) h = All-drop P k xs (λ i l y e. h (suc i) (omega arith) y e)

get_elem?-cases {ℓ} :
    {A : Type ℓ} (xs : List A) (k : ℕ)
    → k ≤ length xs
    → (k ≡ length xs) ⊎ ((x : A) × (get_elem? xs k ≡ some x))
get_elem?-cases [] k l = inl (omega arith)
get_elem?-cases (x ∷ xs) zero l = inr (x, refl)
get_elem?-cases (x ∷ xs) (suc k) l = elim (get_elem?-cases xs k (omega arith)) [
  | inl e ↦ inl (omega arith)
  | inr r ↦ inr r
]

module _ (p : Platform) where
  abbrev pub is_error : StepStatus p → Bool
  is_error (StepStatus.failed f) = true
  is_error s = false

  is_error_inv : (s : StepStatus p) → is_error s ≡ true → (f : Failure p) × (s ≡ failed f)
  is_error_inv StepStatus.pending h = cc
  is_error_inv StepStatus.running h = cc
  is_error_inv (StepStatus.done x) h = cc
  is_error_inv (StepStatus.failed f) h = (f, refl)

  -- Where the first status that is not done stands: everything before is done.
  abbrev pub IsResumePoint : List (StepStatus p) → ℕ → Type 0
  IsResumePoint statuses k =
      (k ≤ length statuses)
      × ((i : ℕ) → i < k → (signature : p.Text) × (get_elem? statuses i ≡ some (done signature)))
      × ((s : StepStatus p) → get_elem? statuses k ≡ some s → is_done p s ≡ false)

  is_done_inv : (s : StepStatus p) → is_done p s ≡ true → (x : p.Text) × (s ≡ done x)
  is_done_inv StepStatus.pending h = cc
  is_done_inv StepStatus.running h = cc
  is_done_inv (StepStatus.done x) h = (x, refl)
  is_done_inv (StepStatus.failed f) h = cc

  resume_point-cons :
      (n : ℕ) (s : StepStatus p) (ss : List (StepStatus p))
      → resume_point p (suc n) (s ∷ ss) ≡ (if is_done p s then suc (resume_point p n ss) else 0)
  unfolding resume_point first_not_done
  resume_point-cons n s ss = ground arith

  resume_point_lem : (ss : List (StepStatus p)) → IsResumePoint ss (resume_point p (length ss) ss)
  resume_point_lem [] =
      unfold resume_point first_not_done in
      (omega arith, λ i l. absurd (omega arith), λ s h. absurd (cc))
  resume_point_lem (s ∷ ss) = elim (Bool-cases (is_done p s)) [
    | inl d ↦
        subst (IsResumePoint (s ∷ ss)) (sym (resume_point-cons (length ss) s ss ∙ (ground arith)))
          (later s ss _ d (resume_point_lem ss))
    | inr n ↦
        subst (IsResumePoint (s ∷ ss)) (sym (resume_point-cons (length ss) s ss ∙ (ground arith)))
          (omega arith, (λ (i : ℕ) (l : i < 0). absurd (omega arith)), (λ t h. ground arith))
  ]
    where
      later :
          (s : StepStatus p) (ss : List (StepStatus p)) (k : ℕ)
          → is_done p s ≡ true
          → IsResumePoint ss k
          → IsResumePoint (s ∷ ss) (suc k)
      later s ss k d (l, before, here) = (omega arith, go, here)
        where
          go : (i : ℕ) → i < suc k → (x : p.Text) × (get_elem? (s ∷ ss) i ≡ some (done x))
          go zero l' = let (x, e) = is_done_inv s d in (x, ap some e)
          go (suc i) l' = before i (omega arith)

  clear_from-IsResumePoint :
      (ss : List (StepStatus p)) (k : ℕ) → IsResumePoint ss k → IsResumePoint (clear_from p k ss) k
  clear_from-IsResumePoint ss k (l, before, here) = (
    omega (arith, length-clear_from p k ss),
    (λ i l'. let (x, e) = before i l' in (x, clear_from_before p k i ss l' ∙ e)),
    clear_from_here p k ss here,
  )

  -- The statuses that the run starts from: those of the last run where they are as many as the steps.
  abbrev pub reused : ℕ → List (StepStatus p) → List (StepStatus p)
  reused n prev = if length prev == n then prev else replicate n pending

  reused_same : (n : ℕ) (prev : List (StepStatus p)) → length prev ≡ n → reused n prev ≡ prev
  reused_same n prev h = ground (arith, ==_iff (length prev) n)

  pub length-reused : (n : ℕ) (prev : List (StepStatus p)) → length (reused n prev) ≡ n
  length-reused n prev = elim (Bool-cases (length prev == n)) [
    | inl e ↦ ground (arith, ==_iff (length prev) n)
    | inr e ↦ rw e (length-replicate n pending)
  ]

  pub initial_run_state_lem :
      (n : ℕ) (prev : List (StepStatus p))
      → (length (initial_run_state p n prev none).0 ≡ n)
        × IsResumePoint (initial_run_state p n prev none).0 (initial_run_state p n prev none).1
        × ((i : ℕ) (f : _)
            → (initial_run_state p n prev none).1 ≤ i
            → get_elem? (initial_run_state p n prev none).0 i ≢ some (failed f))
        × ((i : ℕ)
            → length prev ≡ n
            → i < (initial_run_state p n prev none).1
            → get_elem? (initial_run_state p n prev none).0 i ≡ get_elem? prev i)
  unfolding initial_run_state
  initial_run_state_lem n prev =
      let arr = reused n prev in
      let k = resume_point p n arr in
      let l = length-reused n prev in
      (
        length-clear_from p k arr ∙ l,
        clear_from-IsResumePoint arr k
            (subst (λ m. IsResumePoint arr (resume_point p m arr)) l (resume_point_lem arr)),
        (λ i f l'. clear_from_after p k i arr f l'),
        (λ i h l'. clear_from_before p k i arr l' ∙ ap (λ r. get_elem? r i) (reused_same n prev h)),
      )

  -- A run without a start index begins at the first status that is not done, or at the end where
  -- all are, of an array with one status for each step; and from there on it has no error. The array
  -- is that of the last run where it has one status for each step, and of pending statuses
  -- otherwise: as it was in front of the start, and with its errors made pending from there on.
  pub initial_run_state_resumes :
      (n : ℕ) (prev : List (StepStatus p))
      → (length (initial_run_state p n prev none).0 ≡ n)
        × All
            (λ s. is_done p s ≡ true)
            (take (initial_run_state p n prev none).1 (initial_run_state p n prev none).0)
        × (((initial_run_state p n prev none).1 ≡ n)
            ⊎ ((s : StepStatus p) × (get_elem?
                    (initial_run_state p n prev none).0
                    (initial_run_state p n prev none).1
                  ≡ some s)
                × (is_done p s ≡ false)))
        × All
            (λ s. is_error s ≡ false)
            (drop (initial_run_state p n prev none).1 (initial_run_state p n prev none).0)
        × (take (initial_run_state p n prev none).1 (initial_run_state p n prev none).0
            ≡ take (initial_run_state p n prev none).1 (reused n prev))
        × (drop (initial_run_state p n prev none).1 (initial_run_state p n prev none).0
            ≡ map (cleared p) (drop (initial_run_state p n prev none).1 (reused n prev)))
  initial_run_state_resumes n prev =
      let arr = (initial_run_state p n prev none).0 in
      let k = (initial_run_state p n prev none).1 in
      let (size, (within, before, here), clear, _) = initial_run_state_lem n prev in
      let stop : (k ≡ n)
          ⊎ ((s : StepStatus p) × (get_elem? arr k ≡ some s) × (is_done p s ≡ false)) =
        elim (get_elem?-cases arr k within) [
          | inl e ↦ inl (e ∙ size)
          | inr (s, e) ↦ inr (s, e, here s e)
        ] in
      (
        size,
        All-take _ k arr (λ i l s e. let (x, e') = before i l in ground arith),
        stop,
        All-drop _ k arr (λ i l s e. elim (Bool-cases (is_error s)) [
          | inl t ↦ let (f, e') = is_error_inv s t in absurd (clear i f l (e ∙ ap some e'))
          | inr t ↦ t
        ]),
        (unfold initial_run_state in take-clear_from p _ (reused n prev)),
        (unfold initial_run_state in drop-clear_from p _ (reused n prev)),
      )
