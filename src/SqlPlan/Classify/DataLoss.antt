-- ===== src/SqlPlan/Classify/DataLoss.antt =====
-- The statements that delete data (sqlplan/plan.go).
use nuzur_cli.SqlPlan.Normalize.{normalize}
use nuzur_cli.SqlPlan.Classify.Actions.{split_top_level}
use nuzur_cli.SqlPlan.Classify.Costs.{cost}
use nuzur_cli.SqlPlan.Classify.Worst.{
  Summarizes, classify_alter_table-count, classify_alter_table-worst,
  classify_alter_table-Summarizes,
}
use nuzur_cli.SqlPlan.Classify.Sorting.{count_rank}
use nuzur_cli.SqlPlan.Words.Leads.{Leads, has_prefix_word_iff}
use nuzur_cli.SqlPlan.Classify.DropsColumn.{DropsColumn, action-DropsColumn, DropsColumn-action}
use nuzur_cli.Base.{
  ◌≡◌, ◌⊎◌, arith, inl, inr, false, refl, ℕ, List, Any, ◌<◌, All, ◌≤◌, map, ◌∷◌, subst, ◌==◌, [],
  ◌↔◌,
}
use nuzur_cli.SqlPlan.Classify.{
  classify_norm, classify_alter_table, single, Severity, Classified, Hazard, rank, trim_space,
  classify, split_top_level, action_list, normalize,
}
use nuzur_cli.SqlPlan.Types.{
  data_loss, Classified, Severity, Hazard, rank, severities, severity_none, constraint_loss,
  narrowing,
}
use nuzur_cli.SqlPlan.Words.{has_prefix_word}
use nuzur_cli.Text.{Text, codes, has_prefix, trim_space}

-- The statement deletes data, if the severity of its actions is taken as it is.
abbrev Deletes : Text → Type 0
Deletes norm =
    Leads (codes "DROP TABLE") norm
    ⊎ Leads (codes "DROP DATABASE") norm
    ⊎ Leads (codes "DROP SCHEMA") norm
    ⊎ Leads (codes "TRUNCATE") norm
    ⊎ (Leads (codes "ALTER TABLE") norm × ((classify_alter_table norm).severity ≡ data_loss))

module _ (norm : Text) where
  data_loss-Deletes : (classify_norm norm).severity ≡ data_loss → Deletes norm
  unfolding classify_norm single
  data_loss-Deletes h = ground (
    arith,
    has_prefix_word_iff norm (codes "DROP TABLE"),
    has_prefix_word_iff norm (codes "DROP DATABASE"),
    has_prefix_word_iff norm (codes "DROP SCHEMA"),
    has_prefix_word_iff norm (codes "TRUNCATE"),
    has_prefix_word_iff norm (codes "ALTER TABLE"),
  )

  Deletes-data_loss : Deletes norm → (classify_norm norm).severity ≡ data_loss
  unfolding classify_norm has_prefix_word has_prefix single
  Deletes-data_loss (inl l) = rw (l.splits, l.ends)
  Deletes-data_loss (inr (inl l)) = rw (l.splits, l.ends)
  Deletes-data_loss (inr (inr (inl l))) = rw (l.splits, l.ends)
  Deletes-data_loss (inr (inr (inr (inl l)))) = rw (l.splits, l.ends)
  Deletes-data_loss (inr (inr (inr (inr (l, e))))) = rw l.splits (rw l.ends (rw l.splits at e))

abbrev SomeDrop : List Text → Type 0
SomeDrop actions = Any (λ a. DropsColumn (trim_space a)) actions

SomeDrop-rank :
    (n : ℕ) (actions : List Text)
    → All (λ sev. rank sev ≤ n) (map cost actions)
    → SomeDrop actions
    → 3 ≤ n
SomeDrop-rank n [] w h = absurd h
SomeDrop-rank n (a ∷ actions) w (inl d) =
    subst (λ sev. rank sev ≤ n) (DropsColumn-action (trim_space a) d) w.0
SomeDrop-rank n (a ∷ actions) w (inr later) = SomeDrop-rank n actions w.1 later

data_loss-cases : (sev : Severity) → (sev ≡ data_loss) ⊎ ((rank sev == 3) ≡ false)
data_loss-cases data_loss = inl refl
data_loss-cases severity_none = inr refl
data_loss-cases constraint_loss = inr refl
data_loss-cases narrowing = inr refl

count_rank-SomeDrop : (actions : List Text) → 0 < count_rank 3 (map cost actions) → SomeDrop actions
count_rank-SomeDrop [] h = absurd (omega arith)
count_rank-SomeDrop (a ∷ actions) h = elim (data_loss-cases (cost a)) [
  | inl loss ↦ inl (action-DropsColumn (trim_space a) loss)
  | inr other ↦ inr (count_rank-SomeDrop actions (ground arith))
]

eq_of_rank : (sev : Severity) → 3 ≤ rank sev → sev ≡ data_loss
eq_of_rank sev h = ground arith

Summarizes-count :
    (c : Classified) (hs : List Hazard)
    → Summarizes c hs
    → c.severity ≡ data_loss
    → 0 < count_rank 3 (severities hs)
Summarizes-count c [] s e = cc
Summarizes-count c (h ∷ hs) s e = ground arith

alter_table-SomeDrop :
    (norm : Text)
    → (classify_alter_table norm).severity ≡ data_loss
    → SomeDrop (split_top_level (action_list norm))
alter_table-SomeDrop norm e = count_rank-SomeDrop _ (
    subst (λ n. 0 < n) (classify_alter_table-count norm 2)
      (Summarizes-count (classify_alter_table norm) _ (classify_alter_table-Summarizes norm) e))

SomeDrop-alter_table :
    (norm : Text)
    → SomeDrop (split_top_level (action_list norm))
    → (classify_alter_table norm).severity ≡ data_loss
SomeDrop-alter_table norm h = eq_of_rank _ (SomeDrop-rank _ _ (classify_alter_table-worst norm) h)

-- What a normalized statement must look like for it to delete data.
pub data DeletesData (norm : Text) : Type 0 where
  drops_table : Leads (codes "DROP TABLE") norm → DeletesData norm
  drops_database : Leads (codes "DROP DATABASE") norm → DeletesData norm
  drops_schema : Leads (codes "DROP SCHEMA") norm → DeletesData norm
  truncates : Leads (codes "TRUNCATE") norm → DeletesData norm
  drops_some_column :
      Leads (codes "ALTER TABLE") norm
      → Any (λ a. DropsColumn (trim_space a)) (split_top_level (action_list norm))
      → DeletesData norm

Deletes-DeletesData : (norm : Text) → Deletes norm → DeletesData norm
Deletes-DeletesData norm (inl l) = drops_table l
Deletes-DeletesData norm (inr (inl l)) = drops_database l
Deletes-DeletesData norm (inr (inr (inl l))) = drops_schema l
Deletes-DeletesData norm (inr (inr (inr (inl l)))) = truncates l
Deletes-DeletesData norm (inr (inr (inr (inr (l, e))))) =
    drops_some_column l (alter_table-SomeDrop norm e)

DeletesData-Deletes : (norm : Text) → DeletesData norm → Deletes norm
DeletesData-Deletes norm (drops_table l) = inl l
DeletesData-Deletes norm (drops_database l) = inr (inl l)
DeletesData-Deletes norm (drops_schema l) = inr (inr (inl l))
DeletesData-Deletes norm (truncates l) = inr (inr (inr (inl l)))
DeletesData-Deletes norm (drops_some_column l h) =
    inr (inr (inr (inr (l, SomeDrop-alter_table norm h))))

-- A statement is labelled as data loss exactly when its normal form drops a table, a database or a
-- schema, truncates a table, or alters a table with an action that drops a column, wherever that
-- action stands in the list.
pub classify-data_loss_iff :
    (sql : Text) → ((classify sql).severity ≡ data_loss) ↔ DeletesData (normalize sql)
unfolding classify
classify-data_loss_iff sql = (
  λ e. Deletes-DeletesData (normalize sql) (data_loss-Deletes (normalize sql) e),
  λ d. Deletes-data_loss (normalize sql) (DeletesData-Deletes (normalize sql) d),
)
