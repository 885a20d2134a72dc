-- ===== src/App/Stats.antt =====
-- app/src/lib/oracleStats.ts: the figures, the filter and the orders of the oracle list.
pub mod Sort
pub mod Figures
pub mod Order
use kassandra.Base.{
  ℕ, suc, ◌+◌, Bool, true, false, List, [], ◌∷◌, Option, none, some, ltb, if◌then◌else◌, take, map,
  not,
}
use kassandra.Base.Int.{ℤ, ltz}
use kassandra.Platform.{Platform}
use kassandra.Accounts.Oracle.{Oracle, Phase}
use kassandra.App.Stats.Sort.{sort}

pub data PhaseGroup : Type 0 where
  proposal in_dispute ai_claim challenge resolved invalid_deadend : PhaseGroup

pub data PhaseFilter : Type 0 where
  all : PhaseFilter
  group : PhaseGroup → PhaseFilter

pub data SortBy : Type 0 where
  deadline bonds_at_risk : SortBy

-- A phase out of range is a dead end.
abbrev pub phase_group : Option Phase → PhaseGroup
phase_group none = invalid_deadend
phase_group (some Phase.created) = proposal
phase_group (some Phase.proposal) = proposal
phase_group (some Phase.fact_proposal) = in_dispute
phase_group (some Phase.fact_voting) = in_dispute
phase_group (some Phase.ai_claim) = ai_claim
phase_group (some Phase.final_recompute) = ai_claim
phase_group (some Phase.challenge) = challenge
phase_group (some Phase.resolved) = resolved
phase_group (some Phase.invalid_deadend) = invalid_deadend

abbrev pub is_terminal : Option Phase → Bool
is_terminal (some Phase.resolved) = true
is_terminal (some Phase.invalid_deadend) = true
is_terminal phase = false

-- `phaseGroup(phase) === filter`.
abbrev pub same_group : PhaseGroup → PhaseGroup → Bool
same_group PhaseGroup.proposal PhaseGroup.proposal = true
same_group PhaseGroup.in_dispute PhaseGroup.in_dispute = true
same_group PhaseGroup.ai_claim PhaseGroup.ai_claim = true
same_group PhaseGroup.challenge PhaseGroup.challenge = true
same_group PhaseGroup.resolved PhaseGroup.resolved = true
same_group PhaseGroup.invalid_deadend PhaseGroup.invalid_deadend = true
same_group g g' = false

pub record PhaseCounts : Type 0 where
  pub of_group : PhaseGroup → ℕ
  pub total : ℕ

abbrev pub no_counts : PhaseCounts
no_counts = record { of_group = λ g. 0; total = 0 }

-- `counts[phaseGroup(oracle.phase)] += 1; counts.total += 1`.
abbrev pub count_in : PhaseGroup → PhaseCounts → PhaseCounts
count_in g counts = record {
  of_group = λ g'. if same_group g g' then counts.of_group g' + 1 else counts.of_group g';
  total = counts.total + 1;
}

pub record Sums : Type 0 where
  pub counts : PhaseCounts
  pub at_risk : ℕ
  pub bond_pool_active : ℕ
  pub dispute_bonds_active : ℕ
  pub staked_active : ℕ

abbrev pub no_sums : Sums
no_sums = record {
  counts = no_counts;
  at_risk = 0;
  bond_pool_active = 0;
  dispute_bonds_active = 0;
  staked_active = 0;
}

module _ (p : Platform) where
  pub record OracleSummary : Type 0 where
    pub pubkey : p.Text
    pub oracle : Oracle p.Address

  pub record OracleStats : Type 0 where
    pub sums : Sums
    pub resolved_count : ℕ
    pub recent_resolved : List (p.Text × ℕ)

  abbrev pub oracle_bonds : Oracle p.Address → ℕ
  oracle_bonds oracle = oracle.bond_pool + oracle.dispute_bond_total + oracle.total_oracle_stake

  -- One round of the loop of `deriveStats`.
  abbrev pub add_oracle : Oracle p.Address → Sums → Sums
  add_oracle oracle s =
      let counts = count_in (phase_group oracle.phase) s.counts in
      if not (is_terminal oracle.phase)
      then record {
        counts = counts;
        at_risk = s.at_risk + oracle_bonds oracle;
        bond_pool_active = s.bond_pool_active + oracle.bond_pool;
        dispute_bonds_active = s.dispute_bonds_active + oracle.dispute_bond_total;
        staked_active = s.staked_active + oracle.total_oracle_stake;
      }
      else record {
        counts = counts;
        at_risk = s.at_risk;
        bond_pool_active = s.bond_pool_active;
        dispute_bonds_active = s.dispute_bonds_active;
        staked_active = s.staked_active;
      }

  unfoldable pub sums_from : Sums → List OracleSummary → Sums
  sums_from s [] = s
  sums_from s (summary ∷ summaries) = sums_from (add_oracle summary.oracle s) summaries

  -- `cmpDeadlineDesc(a, b) > 0` and `cmpBondsDesc(a, b) > 0`: `b` comes before `a`.
  abbrev pub cmp_deadline_desc : OracleSummary → OracleSummary → Bool
  cmp_deadline_desc a b = ltz a.oracle.deadline b.oracle.deadline

  abbrev pub cmp_bonds_desc : OracleSummary → OracleSummary → Bool
  cmp_bonds_desc a b = ltb (oracle_bonds a.oracle) (oracle_bonds b.oracle)

  -- `filter((s) => phaseGroup(s.oracle.phase) === g)`.
  abbrev pub keep_group : PhaseGroup → List OracleSummary → List OracleSummary
  keep_group g [] = []
  keep_group g (s ∷ ss) = elim (same_group (phase_group s.oracle.phase) g) [
    | true ↦ s ∷ keep_group g ss
    | false ↦ keep_group g ss
  ]

  unfoldable pub filter_by_phase_group : List OracleSummary → PhaseFilter → List OracleSummary
  filter_by_phase_group summaries PhaseFilter.all = summaries
  filter_by_phase_group summaries (PhaseFilter.group g) = keep_group g summaries

  unfoldable pub sort_oracles : List OracleSummary → SortBy → List OracleSummary
  sort_oracles summaries SortBy.bonds_at_risk = sort cmp_bonds_desc summaries
  sort_oracles summaries SortBy.deadline = sort cmp_deadline_desc summaries

  abbrev pub recent_resolved_limit : ℕ
  recent_resolved_limit = 3

  unfoldable pub derive_stats : List OracleSummary → OracleStats
  derive_stats summaries =
      let sums = sums_from no_sums summaries in
      record {
        sums = sums;
        resolved_count = sums.counts.of_group resolved;
        recent_resolved =
            map (λ s. (s.pubkey, s.oracle.resolved_option))
              (take recent_resolved_limit (sort cmp_deadline_desc (keep_group resolved summaries)));
      }
