-- ===== src/SqlPlan/Classify.antt =====
-- sqlplan/plan.go: `classify`, which labels one statement by its leading keywords.
pub mod Actions
pub mod Action
pub mod Sorting
pub mod Costs
pub mod Worst
pub mod DropsColumn
pub mod DataLoss
use nuzur_cli.SqlPlan.Classify.Action.{classify_drop, classify_other, classify_alter_column}
use nuzur_cli.Base.{
  ℕ, Bool, false, not, ◌&&◌, List, [], ◌∷◌, ◌++◌, map, Option, none, some, ltb, if◌then◌else◌,
  length, is_nil, drop,
}
use mathlib.Core.Option
use nuzur_cli.SqlPlan.Normalize.{normalize}
use nuzur_cli.SqlPlan.Types.{
  Severity, severity_none, data_loss, constraint_loss, narrowing, rank, is_none, Kind, create_table,
  create_index, create_schema, drop_table, drop_index, drop_schema, drop_database, truncate, other,
  is_other, Hazard, Classified,
}
use nuzur_cli.SqlPlan.Words.{
  has_prefix_word, object_after, join_object, describe, contains_word, first_non_empty_ident,
}
use nuzur_cli.Text.{
  Text, codes, index_any, is_blank, trim_space, trim_func, is_space, trim_prefix, replace_from,
  replace_all,
}
use Action.{Labelled, classify_alter_action}
use Actions.{split_top_level}

unfoldable pub single : Kind → Severity → Text → Text → Classified
single k sev obj why = record {
  kind = k;
  severity = sev;
  object = obj;
  reason = why;
  hazards =
      if is_none sev
      then []
      else record { severity = sev; kind = k; object = obj; reason = why } ∷ [];
}

-- `sort.SliceStable` by falling rank: a hazard goes behind those of a higher rank only.
unfoldable pub insert_hazard : Hazard → List Hazard → List Hazard
insert_hazard h [] = h ∷ []
insert_hazard h (x ∷ xs) =
    let rest = insert_hazard h xs in
    if ltb (rank h.severity) (rank x.severity) then x ∷ rest else h ∷ x ∷ xs

unfoldable pub sort_hazards : List Hazard → List Hazard
unfolding insert_hazard
sort_hazards [] = []
sort_hazards (h ∷ hs) = insert_hazard h (sort_hazards hs)

-- The loop over the actions of an ALTER TABLE.
unfoldable pub add_action : Text → Classified → Labelled → Classified
unfolding join_object replace_from
add_action table out action =
    let obj = if is_nil action.name then table else join_object table action.name in
    if not (is_none action.severity)
    then record out {
      hazards =
          out.hazards
          ++ (record {
            severity = action.severity;
            kind = action.kind;
            object = obj;
            reason =
                replace_all action.reason (codes "{table}") (describe table (codes "the table"));
          }
              ∷ []);
    }
    else if is_other out.kind && not (is_other action.kind) && is_nil out.hazards
    then record out { kind = action.kind; object = obj }
    else out

unfoldable pub add_actions : Text → Classified → List Text → Classified
unfolding add_action classify_alter_action classify_drop classify_other classify_alter_column
    has_prefix_word contains_word object_after first_non_empty_ident trim_func is_space
add_actions table out [] = out
add_actions table out (a ∷ actions) =
    add_actions table (add_action table out (classify_alter_action (trim_space a))) actions

-- The worst hazard becomes the summary of the statement.
abbrev summarize : Classified → List Hazard → Classified
summarize out [] = out
summarize out (worst ∷ more) = record {
  kind = worst.kind;
  severity = worst.severity;
  object = worst.object;
  reason = worst.reason;
  hazards = worst ∷ more;
}

-- The action list: what stands behind the table's name.
unfoldable pub action_list : Text → Text
unfolding trim_func is_space trim_prefix index_any
action_list norm =
    let rest = trim_space (trim_prefix norm (codes "ALTER TABLE")) in
    elim (index_any is_blank rest) [ some n ↦ drop n rest | none ↦ [] ]

unfoldable pub classify_alter_table : Text → Classified
unfolding object_after action_list split_top_level add_actions sort_hazards
classify_alter_table norm =
    let table = object_after norm (codes "ALTER TABLE") in
    let start : Classified = record {
      kind = other;
      severity = severity_none;
      object = table;
      reason = [];
      hazards = [];
    } in
    let out = add_actions table start (split_top_level (action_list norm)) in
    summarize out (sort_hazards out.hazards)

abbrev truncated : Text → Text
truncated norm =
    let obj = object_after norm (codes "TRUNCATE TABLE") in
    if is_nil obj then object_after norm (codes "TRUNCATE") else obj

unfoldable pub classify_norm : Text → Classified
classify_norm norm =
    let obj = λ (phrase : Text). object_after norm phrase in
    if has_prefix_word norm (codes "CREATE TABLE")
    then single create_table severity_none (obj (codes "CREATE TABLE")) []
    else if has_prefix_word norm (codes "CREATE UNIQUE INDEX")
    then single create_index narrowing (obj (codes "CREATE UNIQUE INDEX"))
        (codes "adds a uniqueness rule; fails if the existing rows already contain duplicates")
    else if has_prefix_word norm (codes "CREATE INDEX")
    then single create_index severity_none (obj (codes "CREATE INDEX")) []
    else if has_prefix_word norm (codes "CREATE SCHEMA")
    then single create_schema severity_none (obj (codes "CREATE SCHEMA")) []
    else if has_prefix_word norm (codes "DROP TABLE")
    then single drop_table data_loss (obj (codes "DROP TABLE")) (
        codes "drops "
        ++ (describe (obj (codes "DROP TABLE")) (codes "the table")
            ++ codes " and every row in it"))
    else if has_prefix_word norm (codes "DROP DATABASE")
    then single drop_database data_loss (obj (codes "DROP DATABASE")) (
        codes "drops "
        ++ (describe (obj (codes "DROP DATABASE")) (codes "the database")
            ++ codes " and everything in it"))
    else if has_prefix_word norm (codes "DROP SCHEMA")
    then single drop_schema data_loss (obj (codes "DROP SCHEMA")) (
        codes "drops "
        ++ (describe (obj (codes "DROP SCHEMA")) (codes "the schema")
            ++ codes " and every table in it"))
    else if has_prefix_word norm (codes "TRUNCATE")
    then single truncate data_loss (truncated norm)
        (codes "deletes every row in " ++ describe (truncated norm) (codes "the table"))
    else if has_prefix_word norm (codes "DROP INDEX")
    then single drop_index constraint_loss (obj (codes "DROP INDEX")) (
        codes "drops "
        ++ (describe (obj (codes "DROP INDEX")) (codes "the index")
            ++ codes
                "; no data is deleted, but queries relying on it get slower and any uniqueness it enforced is gone"))
    else if has_prefix_word norm (codes "ALTER TABLE")
    then classify_alter_table norm
    else single other severity_none [] []

unfoldable pub classify : Text → Classified
unfolding normalize classify_norm has_prefix_word object_after single classify_alter_table
classify sql = classify_norm (normalize sql)
