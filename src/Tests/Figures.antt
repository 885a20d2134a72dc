-- ===== src/Tests/Figures.antt =====
-- The figures and the orders at three oracles.
use kassandra.Base.{ℕ, ◌+◌, ◌≡◌, arith, List, [], ◌∷◌, Bool, true, false, some, ◌==◌}
use mathlib.Core.List.{Perm}
use kassandra.Accounts.Oracle.{Phase}
use kassandra.Tests.Sample.{sample}
use kassandra.Tests.Large.{oracle_at}
use kassandra.App.Stats.{SortBy, OracleSummary, derive_stats, oracle_bonds, sort_oracles}
use kassandra.App.Stats.Sort.{Ordered}
use kassandra.App.Stats.Figures.{sum_active, derive_stats_at_risk}
use kassandra.App.Stats.Order.{comes_after, sort_oracles_lem}

abbrev summary : List ℕ → Phase → ℕ → OracleSummary sample
summary key phase bond = record {
  pubkey = key;
  oracle = record oracle_at { phase = some phase; bond_pool = bond };
}

abbrev summaries : List (OracleSummary sample)
summaries =
    summary (1 ∷ []) Phase.challenge 5
    ∷ summary (2 ∷ []) Phase.resolved 90
    ∷ summary (3 ∷ []) Phase.challenge 7
    ∷ []

derive_stats_at_risk_example :
    ((derive_stats sample summaries).sums.at_risk
      ≡ sum_active sample (λ x. oracle_bonds sample x.oracle) summaries)
    × ((derive_stats sample summaries).sums.at_risk
        ≡ (derive_stats sample summaries).sums.bond_pool_active
          + (derive_stats sample summaries).sums.dispute_bonds_active
          + (derive_stats sample summaries).sums.staked_active)
derive_stats_at_risk_example = derive_stats_at_risk sample summaries

sort_oracles_lem_example :
    Perm summaries (sort_oracles sample summaries SortBy.bonds_at_risk)
    × Ordered
        (comes_after sample SortBy.bonds_at_risk)
        (sort_oracles sample summaries SortBy.bonds_at_risk)
sort_oracles_lem_example = sort_oracles_lem sample SortBy.bonds_at_risk summaries

-- The one oracle with the bond 90.
abbrev has_90 : OracleSummary sample → Bool
has_90 s =
    oracle_bonds sample s.oracle == 90 + oracle_at.dispute_bond_total + oracle_at.total_oracle_stake

ties :
    (x y : OracleSummary sample)
    → has_90 x ≡ true
    → has_90 y ≡ true
    → comes_after sample SortBy.bonds_at_risk x y ≡ false
ties x y h h' = ground arith
