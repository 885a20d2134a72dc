-- ===== src/App/Stats/Figures.antt =====
-- The figures of `deriveStats`, app/src/lib/oracleStats.ts, against the list that they count.
use kassandra.Base.{ℕ, ◌≡◌, ◌+◌, refl, List, [], ◌∷◌, arith, length, if◌then◌else◌}
use kassandra.Platform.{Platform}
use kassandra.App.Stats.{
  PhaseGroup, PhaseFilter, Sums, OracleSummary, is_terminal, oracle_bonds, add_oracle, sums_from,
  keep_group, filter_by_phase_group, derive_stats, no_sums,
}

module _ (p : Platform) where
  -- The capital of the oracles that are not settled, by a measure of one oracle.
  abbrev pub sum_active : (OracleSummary p → ℕ) → List (OracleSummary p) → ℕ
  sum_active f [] = 0
  sum_active f (s ∷ ss) = (if is_terminal s.oracle.phase then 0 else f s) + sum_active f ss

  sums_from_total :
      (s : Sums) (ss : List (OracleSummary p))
      → (sums_from p s ss).counts.total ≡ s.counts.total + length ss
  unfolding sums_from
  sums_from_total s [] = omega arith
  sums_from_total s (x ∷ xs) = ground (arith, sums_from_total (add_oracle p x.oracle s) xs)

  sums_from_group :
      (s : Sums) (ss : List (OracleSummary p)) (g : PhaseGroup)
      → (sums_from p s ss).counts.of_group g ≡ s.counts.of_group g + length (keep_group p g ss)
  unfolding sums_from
  sums_from_group s [] g = omega arith
  sums_from_group s (x ∷ xs) g = ground (arith, sums_from_group (add_oracle p x.oracle s) xs g)

  sums_from_active :
      (s : Sums) (ss : List (OracleSummary p))
      → ((sums_from p s ss).at_risk ≡ s.at_risk + sum_active (λ x. oracle_bonds p x.oracle) ss)
        × ((sums_from p s ss).bond_pool_active
            ≡ s.bond_pool_active + sum_active (λ x. x.oracle.bond_pool) ss)
        × ((sums_from p s ss).dispute_bonds_active
            ≡ s.dispute_bonds_active + sum_active (λ x. x.oracle.dispute_bond_total) ss)
        × ((sums_from p s ss).staked_active
            ≡ s.staked_active + sum_active (λ x. x.oracle.total_oracle_stake) ss)
  unfolding sums_from
  sums_from_active s [] = (omega arith, omega arith, omega arith, omega arith)
  sums_from_active s (x ∷ xs) = ground (arith, sums_from_active (add_oracle p x.oracle s) xs)

  -- The count of each group is the length of the list that the filter for this group gives, and the
  -- total is the length of the whole list.
  pub derive_stats_counts :
      (ss : List (OracleSummary p)) (g : PhaseGroup)
      → ((derive_stats p ss).sums.counts.of_group g
          ≡ length (filter_by_phase_group p ss (PhaseFilter.group g)))
        × ((derive_stats p ss).sums.counts.total
            ≡ length (filter_by_phase_group p ss PhaseFilter.all))
  unfolding derive_stats filter_by_phase_group
  derive_stats_counts ss g =
      (omega (arith, sums_from_group no_sums ss g), omega (arith, sums_from_total no_sums ss))

  sum_active_parts :
      (ss : List (OracleSummary p))
      → sum_active (λ x. oracle_bonds p x.oracle) ss
        ≡ sum_active (λ x. x.oracle.bond_pool) ss
          + sum_active (λ x. x.oracle.dispute_bond_total) ss
          + sum_active (λ x. x.oracle.total_oracle_stake) ss
  sum_active_parts [] = refl
  sum_active_parts (x ∷ xs) = ground (arith, sum_active_parts xs)

  -- The capital at risk is the sum of the bonds of the oracles that are not settled, those of an unknown
  -- phase included, and it is the sum of its three parts.
  pub derive_stats_at_risk :
      (ss : List (OracleSummary p))
      → ((derive_stats p ss).sums.at_risk ≡ sum_active (λ x. oracle_bonds p x.oracle) ss)
        × ((derive_stats p ss).sums.at_risk
            ≡ (derive_stats p ss).sums.bond_pool_active
              + (derive_stats p ss).sums.dispute_bonds_active
              + (derive_stats p ss).sums.staked_active)
  unfolding derive_stats
  derive_stats_at_risk ss =
      let (a, b, c, d) = sums_from_active no_sums ss in
      (omega (arith, a), omega (arith, a, b, c, d, sum_active_parts ss))
