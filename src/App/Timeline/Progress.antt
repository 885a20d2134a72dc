-- ===== src/App/Timeline/Progress.antt =====
-- How the statuses of app/src/lib/phaseTimeline.ts run along the strip.
use kassandra.Base.{
  ℕ, ◌-◌, ◌≡◌, ◌++◌, refl, List, [], ◌∷◌, Option, none, some, map, replicate, Bool, true, false,
}
use kassandra.Accounts.Oracle.{Phase}
use kassandra.App.Timeline.{StepStatus, done, current, future, phase_timeline_model}

-- The statuses that belong to the stage that is reached: those before are done, those after are not.
abbrev pub reached : Option ℕ → List StepStatus
reached none = replicate 6 future
reached (some i) = replicate i done ++ (current ∷ replicate (5 - i) future)

-- The stage that holds a phase; the two of settlement share one, and the two ends.
abbrev pub stage_number : Option Phase → Option ℕ
stage_number none = none
stage_number (some Phase.created) = none
stage_number (some Phase.proposal) = some 0
stage_number (some Phase.fact_proposal) = some 1
stage_number (some Phase.fact_voting) = some 2
stage_number (some Phase.ai_claim) = some 3
stage_number (some Phase.challenge) = some 4
stage_number (some Phase.final_recompute) = some 4
stage_number (some Phase.resolved) = some 5
stage_number (some Phase.invalid_deadend) = some 5

abbrev pub ends_dead : Option Phase → Bool
ends_dead (some Phase.invalid_deadend) = true
ends_dead phase = false

-- The strip has six steps: those before the stage that holds the phase are done, that one is
-- current, and the later ones are future; all are future where no stage holds it. Only the last
-- step can be a dead end, and it is one exactly for the phase of that name.
pub phase_timeline_model_lem :
    (phase : Option Phase)
    → (map (λ s. s.status) (phase_timeline_model phase) ≡ reached (stage_number phase))
      × (map (λ s. s.deadend) (phase_timeline_model phase)
          ≡ replicate 5 false ++ (ends_dead phase ∷ []))
unfolding phase_timeline_model
phase_timeline_model_lem none = (refl, refl)
phase_timeline_model_lem (some Phase.created) = (refl, refl)
phase_timeline_model_lem (some Phase.proposal) = (refl, refl)
phase_timeline_model_lem (some Phase.fact_proposal) = (refl, refl)
phase_timeline_model_lem (some Phase.fact_voting) = (refl, refl)
phase_timeline_model_lem (some Phase.ai_claim) = (refl, refl)
phase_timeline_model_lem (some Phase.challenge) = (refl, refl)
phase_timeline_model_lem (some Phase.final_recompute) = (refl, refl)
phase_timeline_model_lem (some Phase.resolved) = (refl, refl)
phase_timeline_model_lem (some Phase.invalid_deadend) = (refl, refl)
