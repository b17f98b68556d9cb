-- ===== src/SqlPlan/Classify/Action.antt =====
-- sqlplan/plan.go: `classifyAlterAction`, which labels one action of an ALTER TABLE.
use nuzur_cli.Base.{◌||◌, [], ◌∷◌, ◌++◌, if◌then◌else◌}
use nuzur_cli.SqlPlan.Types.{
  Severity, severity_none, data_loss, constraint_loss, narrowing, Kind, create_index, add_column,
  add_constraint, alter_column, drop_column, drop_index, drop_constraint, other,
}
use nuzur_cli.SqlPlan.Words.{
  has_prefix_word, contains_word, object_after, first_non_empty_ident, describe,
}
use nuzur_cli.Text.{Text, codes}

-- The four results of the function.
pub record Labelled : Type 0 where
  pub kind : Kind
  pub severity : Severity
  pub name : Text
  pub reason : Text

abbrev label : Kind → Severity → Text → Text → Labelled
label k s n r = record { kind = k; severity = s; name = n; reason = r }

abbrev drops_column : Text → Labelled
drops_column col = label drop_column data_loss col (
    codes "drops "
    ++ (describe col (codes "the column") ++ codes " from {table} and every value in it"))

-- The actions that begin with DROP; the last is MySQL's bare form, which drops a column.
unfoldable pub classify_drop : Text → Labelled
classify_drop a =
    if has_prefix_word a (codes "DROP COLUMN")
    then drops_column (object_after a (codes "DROP COLUMN"))
    else if has_prefix_word a (codes "DROP CONSTRAINT")
    then label drop_constraint constraint_loss (object_after a (codes "DROP CONSTRAINT"))
        (codes "drops a constraint on {table}")
    else if has_prefix_word a (codes "DROP FOREIGN KEY")
    then label drop_constraint constraint_loss (object_after a (codes "DROP FOREIGN KEY"))
        (codes "drops a foreign key on {table}")
    else if has_prefix_word a (codes "DROP CHECK")
    then label drop_constraint constraint_loss (object_after a (codes "DROP CHECK"))
        (codes "drops a check constraint on {table}")
    else if has_prefix_word a (codes "DROP PRIMARY KEY")
    then label drop_index constraint_loss [] (codes "drops the primary key of {table}")
    else if has_prefix_word a (codes "DROP KEY")
    then label drop_index constraint_loss (object_after a (codes "DROP KEY"))
        (codes "drops an index on {table}")
    else if has_prefix_word a (codes "DROP INDEX")
    then label drop_index constraint_loss (object_after a (codes "DROP INDEX"))
        (codes "drops an index on {table}")
    else drops_column (object_after a (codes "DROP"))

abbrev redefined : Text → Text
redefined a = first_non_empty_ident (
    object_after a (codes "MODIFY COLUMN")
    ∷ object_after a (codes "CHANGE COLUMN")
    ∷ object_after a (codes "MODIFY")
    ∷ object_after a (codes "CHANGE")
    ∷ [])

unfoldable pub classify_alter_column : Text → Labelled
classify_alter_column a =
    let col = object_after a (codes "ALTER COLUMN") in
    if contains_word a (codes "SET NOT NULL")
    then label alter_column narrowing col (
        codes
          "requires every existing row of {table} to have a value in this column; fails on nulls")
    else if contains_word a (codes "TYPE")
    then label alter_column narrowing col (
        codes
          "changes a column type on {table}; can truncate or fail depending on the values already stored")
    else label alter_column severity_none col []

-- The actions that do not begin with DROP.
unfoldable pub classify_other : Text → Labelled
classify_other a =
    if has_prefix_word a (codes "ADD COLUMN")
    then label add_column severity_none (object_after a (codes "ADD COLUMN")) []
    else if has_prefix_word a (codes "ADD UNIQUE")
    then label add_constraint narrowing [] (
        codes
          "adds a uniqueness rule to {table}; fails if the existing rows already contain duplicates")
    else if has_prefix_word a (codes "ADD CONSTRAINT")
        || has_prefix_word a (codes "ADD PRIMARY KEY")
        || has_prefix_word a (codes "ADD FOREIGN KEY")
        || has_prefix_word a (codes "ADD CHECK")
    then label add_constraint narrowing []
        (codes "adds a constraint to {table}; fails if the existing rows do not already satisfy it")
    else if has_prefix_word a (codes "ADD INDEX")
        || has_prefix_word a (codes "ADD KEY")
        || has_prefix_word a (codes "ADD FULLTEXT")
        || has_prefix_word a (codes "ADD SPATIAL")
    then label create_index severity_none [] []
    else if has_prefix_word a (codes "MODIFY COLUMN")
        || has_prefix_word a (codes "MODIFY")
        || has_prefix_word a (codes "CHANGE COLUMN")
        || has_prefix_word a (codes "CHANGE")
    then label alter_column narrowing (redefined a) (
        codes "redefines "
        ++ (describe (redefined a) (codes "a column")
            ++ codes " on {table}; can truncate or fail depending on the values already stored"))
    else if has_prefix_word a (codes "ALTER COLUMN")
    then classify_alter_column a
    else label other severity_none [] []

-- In the source one `switch`: each form of DROP stands above the bare one.
unfoldable pub classify_alter_action : Text → Labelled
classify_alter_action a =
    if has_prefix_word a (codes "DROP COLUMN")
      || has_prefix_word a (codes "DROP CONSTRAINT")
      || has_prefix_word a (codes "DROP FOREIGN KEY")
      || has_prefix_word a (codes "DROP CHECK")
      || has_prefix_word a (codes "DROP PRIMARY KEY")
      || has_prefix_word a (codes "DROP KEY")
      || has_prefix_word a (codes "DROP INDEX")
      || has_prefix_word a (codes "DROP")
    then classify_drop a
    else classify_other a
