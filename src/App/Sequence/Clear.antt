-- ===== src/App/Sequence/Clear.antt =====
-- Which statuses a run takes over from the last one, app/src/market/hooks/useActionSequence.ts.
use kassandra.Base.{
  take, drop, map, ℕ, zero, suc, ◌≤◌, ◌<◌, ◌≡◌, ◌≢◌, refl, ap, arith, List, [], ◌∷◌, false, some,
  length, get_elem?,
}
use mathlib.Core.Path.{ap₂}
use kassandra.Platform.{Platform}
use kassandra.App.Sequence.{StepStatus, pending, done, failed, is_done, forget_error, clear_from}

module _ (p : Platform) where
  pub length-clear_from :
      (k : ℕ) (ss : List (StepStatus p)) → length (clear_from p k ss) ≡ length ss
  unfolding clear_from
  length-clear_from k [] = refl
  length-clear_from zero (s ∷ ss) = ap suc (length-clear_from zero ss)
  length-clear_from (suc k) (s ∷ ss) = ap suc (length-clear_from k ss)

  is_done-forget_error : (s : StepStatus p) → is_done p (forget_error p s) ≡ is_done p s
  is_done-forget_error StepStatus.pending = refl
  is_done-forget_error StepStatus.running = refl
  is_done-forget_error (StepStatus.done x) = refl
  is_done-forget_error (StepStatus.failed f) = refl

  -- Clearing keeps what stands before the resume point, and leaves no error at or after it.
  pub clear_from_before :
      (k i : ℕ) (ss : List (StepStatus p))
      → i < k
      → get_elem? (clear_from p k ss) i ≡ get_elem? ss i
  unfolding clear_from
  clear_from_before k i [] l = refl
  clear_from_before zero i (s ∷ ss) l = absurd (omega arith)
  clear_from_before (suc k) zero (s ∷ ss) l = refl
  clear_from_before (suc k) (suc i) (s ∷ ss) l = clear_from_before k i ss (omega arith)

  pub clear_from_after :
      (k i : ℕ) (ss : List (StepStatus p)) (f : _)
      → k ≤ i
      → get_elem? (clear_from p k ss) i ≢ some (failed f)
  unfolding clear_from
  clear_from_after k i [] f l h = cc
  clear_from_after zero zero (StepStatus.pending ∷ ss) f l h = cc
  clear_from_after zero zero (StepStatus.running ∷ ss) f l h = cc
  clear_from_after zero zero (StepStatus.done x ∷ ss) f l h = cc
  clear_from_after zero zero (StepStatus.failed x ∷ ss) f l h = cc
  clear_from_after zero (suc i) (s ∷ ss) f l h = clear_from_after zero i ss f (omega arith) h
  clear_from_after (suc k) zero (s ∷ ss) f l h = absurd (omega arith)
  clear_from_after (suc k) (suc i) (s ∷ ss) f l h = clear_from_after k i ss f (omega arith) h

  -- What a run takes over of a status at or after its start.
  abbrev pub cleared : StepStatus p → StepStatus p
  cleared StepStatus.pending = pending
  cleared StepStatus.running = StepStatus.running
  cleared (StepStatus.done signature) = done signature
  cleared (StepStatus.failed f) = pending

  forget_error-cleared : (s : StepStatus p) → forget_error p s ≡ cleared s
  forget_error-cleared StepStatus.pending = refl
  forget_error-cleared StepStatus.running = refl
  forget_error-cleared (StepStatus.done x) = refl
  forget_error-cleared (StepStatus.failed f) = refl

  pub take-clear_from : (k : ℕ) (ss : List (StepStatus p)) → take k (clear_from p k ss) ≡ take k ss
  unfolding clear_from
  take-clear_from zero ss = refl
  take-clear_from (suc k) [] = refl
  take-clear_from (suc k) (s ∷ ss) = ap (λ r. s ∷ r) (take-clear_from k ss)

  pub drop-clear_from :
      (k : ℕ) (ss : List (StepStatus p)) → drop k (clear_from p k ss) ≡ map cleared (drop k ss)
  unfolding clear_from
  drop-clear_from zero [] = refl
  drop-clear_from zero (s ∷ ss) = ap₂ ◌∷◌ (forget_error-cleared s) (drop-clear_from zero ss)
  drop-clear_from (suc k) [] = refl
  drop-clear_from (suc k) (s ∷ ss) = drop-clear_from k ss

  pub clear_from_here :
      (k : ℕ) (ss : List (StepStatus p))
      → ((s : StepStatus p) → get_elem? ss k ≡ some s → is_done p s ≡ false)
      → (s : StepStatus p) → get_elem? (clear_from p k ss) k ≡ some s
      → is_done p s ≡ false
  unfolding clear_from
  clear_from_here k [] h s e = h s e
  clear_from_here zero (t ∷ ss) h s e = ground (arith, h t refl, is_done-forget_error t)
  clear_from_here (suc k) (t ∷ ss) h s e = clear_from_here k ss h s e
