-- ===== src/SqlPlan/Plan/Gauge.antt =====
-- The counts of a plan (sqlplan/plan.go).
use nuzur_cli.Base.{
  ℕ, ◌+◌, ◌≡◌, ◌↔◌, List, [], ◌∷◌, true, arith, length, refl, ◌<◌, select, if◌then◌else◌,
}
use nuzur_cli.SqlPlan.Plan.{
  count_one, count_all, counts, destructive, has_destructive, Severity, destructive_statement,
}
use nuzur_cli.SqlPlan.Types.{Counts, Statement, Plan, is_data_loss, Severity, severity_none}

-- The sum of the four classes.
abbrev pub sum : Counts → ℕ
sum c = c.additive + c.data_losses + c.constraint_losses + c.narrowings

count_one-sum : (c : Counts) (sev : Severity) → sum (count_one c sev) ≡ sum c + 1
count_one-sum c severity_none = omega arith
count_one-sum c sev = omega arith

count_all-sum : (c : Counts) (ss : List Statement) → sum (count_all c ss) ≡ sum c + length ss
unfolding count_all
count_all-sum c [] = omega arith
count_all-sum c (s ∷ ss) =
    omega (arith, count_all-sum (count_one c s.severity) ss, count_one-sum c s.severity)

count_all-total : (c : Counts) (ss : List Statement) → (count_all c ss).total ≡ c.total
unfolding count_all
count_all-total c [] = refl
count_all-total c (s ∷ ss) = ground (arith, count_all-total (count_one c s.severity) ss)

count_one-data_losses :
    (c : Counts) (sev : Severity)
    → (count_one c sev).data_losses ≡ c.data_losses + (if is_data_loss sev then 1 else 0)
count_one-data_losses c severity_none = omega arith
count_one-data_losses c sev = omega arith

count_all-data_losses :
    (c : Counts) (ss : List Statement)
    → (count_all c ss).data_losses ≡ c.data_losses + length (select destructive_statement ss)
unfolding count_all
count_all-data_losses c [] = omega arith
count_all-data_losses c (s ∷ ss) =
    ground
      (arith, count_all-data_losses (count_one c s.severity) ss, count_one-data_losses c s.severity)

-- The total of the counts is the number of statements, the four classes add up to it, and the data
-- losses are the statements that `Destructive` returns.
pub counts_add_up :
    (p : Plan)
    → ((counts p).total ≡ length p.statements)
      × (sum (counts p) ≡ (counts p).total)
      × ((counts p).data_losses ≡ length (destructive p))
unfolding counts destructive
counts_add_up p = (
  count_all-total _ p.statements,
  omega (arith, count_all-total _ p.statements, count_all-sum _ p.statements),
  omega (arith, count_all-data_losses _ p.statements),
)

-- A plan has destructive statements exactly if its count of data losses is positive.
pub has_destructive_iff : (p : Plan) → (has_destructive p ≡ true) ↔ (0 < (counts p).data_losses)
unfolding has_destructive destructive
has_destructive_iff p = ground (arith, counts_add_up p)
