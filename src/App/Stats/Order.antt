-- ===== src/App/Stats/Order.antt =====
-- The orders of `sortOracles`, and the recent resolutions of app/src/lib/oracleStats.ts.
use kassandra.Base.{◌≡◌, refl, Bool, true, false, List, ltb, arith}
use kassandra.Base.Int.{ℤ, pos, negsuc, ltz}
use mathlib.Core.List.{Perm}
use kassandra.Platform.{Platform}
use kassandra.App.Stats.Sort.{Ordered, sort-Perm, sort-Ordered, sort_stable, picked}
use kassandra.App.Stats.{
  SortBy, OracleSummary, oracle_bonds, cmp_bonds_desc, cmp_deadline_desc, sort_oracles,
}

ltz_asym : (a b : ℤ) → ltz a b ≡ true → ltz b a ≡ false
ltz_asym (pos m) (pos n) h = ground arith
ltz_asym (pos m) (negsuc n) h = cc
ltz_asym (negsuc m) (pos n) h = refl
ltz_asym (negsuc m) (negsuc n) h = ground arith

ltz_neg_trans : (a b c : ℤ) → ltz a b ≡ false → ltz b c ≡ false → ltz a c ≡ false
ltz_neg_trans (pos a) (pos b) (pos c) h h' = ground arith
ltz_neg_trans (pos a) b (negsuc c) h h' = refl
ltz_neg_trans (pos a) (negsuc b) (pos c) h h' = cc
ltz_neg_trans (negsuc a) (pos b) c h h' = cc
ltz_neg_trans (negsuc a) (negsuc b) (pos c) h h' = cc
ltz_neg_trans (negsuc a) (negsuc b) (negsuc c) h h' = ground arith

module _ (p : Platform) where
  -- Whether the first of two oracles may not stand before the second.
  abbrev pub comes_after : SortBy → OracleSummary p → OracleSummary p → Bool
  comes_after SortBy.bonds_at_risk a b = ltb (oracle_bonds p a.oracle) (oracle_bonds p b.oracle)
  comes_after SortBy.deadline a b = ltz a.oracle.deadline b.oracle.deadline

  -- Sorting gives the same oracles, and none stands after one that has less capital at stake or an
  -- earlier deadline, by the key that was chosen.
  pub sort_oracles_lem :
      (by : SortBy) (summaries : List (OracleSummary p))
      → Perm summaries (sort_oracles p summaries by)
        × Ordered (comes_after by) (sort_oracles p summaries by)
  unfolding sort_oracles
  sort_oracles_lem SortBy.bonds_at_risk ss = (
    sort-Perm _ ss,
    sort-Ordered (cmp_bonds_desc p) (λ x y h. ground arith) (λ x y z h h'. ground arith) ss,
  )
  sort_oracles_lem SortBy.deadline ss = (
    sort-Perm _ ss,
    sort-Ordered (cmp_deadline_desc p) (λ x y h. ltz_asym x.oracle.deadline y.oracle.deadline h)
        (λ x y z h h'. ltz_neg_trans x.oracle.deadline y.oracle.deadline z.oracle.deadline h h') ss,
  )

  -- Sorting keeps the order among oracles that a test picks, if none of these is to come before
  -- another by the key.
  pub sort_oracles_stable :
      (by : SortBy) (q : OracleSummary p → Bool) (summaries : List (OracleSummary p))
      → ((x y : OracleSummary p) → q x ≡ true → q y ≡ true → comes_after by x y ≡ false)
      → picked (comes_after by) q (sort_oracles p summaries by)
        ≡ picked (comes_after by) q summaries
  unfolding sort_oracles
  sort_oracles_stable SortBy.bonds_at_risk q ss ties = sort_stable (cmp_bonds_desc p) q ties ss
  sort_oracles_stable SortBy.deadline q ss ties = sort_stable (cmp_deadline_desc p) q ties ss
