-- ===== src/App/Timeline.antt =====
-- `phaseTimelineModel` of app/src/lib/phaseTimeline.ts.
pub mod Progress
use kassandra.Base.{
  ℕ, suc, List, [], ◌∷◌, Bool, true, false, ◌&&◌, ◌||◌, Option, none, some, ltb, ◌==◌,
  if◌then◌else◌,
}
use Prim.Native.String.{String}
use kassandra.Accounts.Oracle.{Phase}

pub data StepStatus : Type 0 where
  done current future : StepStatus

pub record TimelineStep : Type 0 where
  pub key : String
  pub label : String
  pub status : StepStatus
  pub terminal : Bool
  pub deadend : Bool

pub record Stage : Type 0 where
  pub key : String
  pub label : String
  pub phases : List Phase
  pub terminal : Bool
  -- `stage.key === 'settlement'`.
  pub is_settlement : Bool

-- The number of a phase, to compare by.
abbrev phase_number : Phase → ℕ
phase_number Phase.created = 0
phase_number Phase.proposal = 1
phase_number Phase.fact_proposal = 2
phase_number Phase.fact_voting = 3
phase_number Phase.ai_claim = 4
phase_number Phase.challenge = 5
phase_number Phase.final_recompute = 6
phase_number Phase.resolved = 7
phase_number Phase.invalid_deadend = 8

abbrev pub same_phase : Phase → Phase → Bool
same_phase p q = phase_number p == phase_number q

abbrev pub plain_stage : String → String → List Phase → Stage
plain_stage key label phases = record {
  key = key;
  label = label;
  phases = phases;
  terminal = false;
  is_settlement = false;
}

abbrev pub stages : List Stage
stages =
    plain_stage "proposal" "Proposal" (Phase.proposal ∷ [])
    ∷ plain_stage "factProposal" "Fact proposal" (Phase.fact_proposal ∷ [])
    ∷ plain_stage "factVoting" "Fact voting" (Phase.fact_voting ∷ [])
    ∷ plain_stage "aiClaim" "AI claim" (Phase.ai_claim ∷ [])
    ∷ record {
      key = "settlement";
      label = "Settlement";
      phases = Phase.challenge ∷ Phase.final_recompute ∷ [];
      terminal = false;
      is_settlement = true;
    }
    ∷ record {
      key = "resolution";
      label = "Resolved";
      phases = Phase.resolved ∷ Phase.invalid_deadend ∷ [];
      terminal = true;
      is_settlement = false;
    }
    ∷ []

-- `includes`, and `findIndex`: none stands for -1.
abbrev pub includes : List Phase → Phase → Bool
includes [] p = false
includes (q ∷ qs) p = same_phase q p || includes qs p

abbrev pub find_stage : List Stage → Phase → Option ℕ
find_stage [] p = none
find_stage (s ∷ ss) p =
    if includes s.phases p
    then some 0
    else elim (find_stage ss p) [ none ↦ none | some i ↦ some (suc i) ]

abbrev pub stage_index_of : Option Phase → Option ℕ
stage_index_of none = none
stage_index_of (some phase) = find_stage stages phase

abbrev pub status_at : Option ℕ → ℕ → StepStatus
status_at none i = future
status_at (some c) i = if ltb c i then future else if i == c then current else done

-- `oracle.phase === phase`.
abbrev pub phase_is : Option Phase → Phase → Bool
phase_is none q = false
phase_is (some p) q = same_phase p q

abbrev pub label_of : Option Phase → Stage → String
label_of phase stage =
    if stage.is_settlement
    then (if phase_is phase Phase.challenge
        then "Challenge"
        else if phase_is phase Phase.final_recompute
        then "Final recompute"
        else stage.label)
    else if stage.terminal && phase_is phase Phase.invalid_deadend
    then "Dead end"
    else stage.label

abbrev pub step_of : Option Phase → ℕ → Stage → TimelineStep
step_of phase i stage = record {
  key = stage.key;
  label = label_of phase stage;
  status = status_at (stage_index_of phase) i;
  terminal = stage.terminal;
  deadend = stage.terminal && phase_is phase Phase.invalid_deadend;
}

-- `STAGES.map((stage, i) => …)`, from index `i` on.
abbrev pub steps_from : Option Phase → ℕ → List Stage → List TimelineStep
steps_from phase i [] = []
steps_from phase i (s ∷ ss) = step_of phase i s ∷ steps_from phase (suc i) ss

unfoldable pub phase_timeline_model : Option Phase → List TimelineStep
phase_timeline_model phase = steps_from phase 0 stages
