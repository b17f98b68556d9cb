-- ===== src/SqlPlan/Churn.antt =====
-- sqlplan/render.go: `ChurnNote`, which counts the statements of the two shapes that no-op churn
-- takes on MySQL.
use nuzur_cli.Base.{◌+◌, Bool, true, false, not, ◌&&◌, [], ◌++◌, ◌==◌, if◌then◌else◌, count_if}
use nuzur_cli.SqlPlan.Plan.{counts}
use nuzur_cli.SqlPlan.Types.{
  Severity, narrowing, Kind, alter_column, drop_index, create_index, Statement, Plan,
}
use nuzur_cli.Text.Decimal.{show}
use nuzur_cli.Text.{Text, codes}

abbrev is_alter_column : Kind → Bool
is_alter_column alter_column = true
is_alter_column _ = false

abbrev is_narrowing : Severity → Bool
is_narrowing narrowing = true
is_narrowing _ = false

abbrev is_index_change : Kind → Bool
is_index_change drop_index = true
is_index_change create_index = true
is_index_change _ = false

abbrev pub redefines_column : Statement → Bool
redefines_column s = is_alter_column s.kind && is_narrowing s.severity

abbrev pub changes_index : Statement → Bool
changes_index s = not (redefines_column s) && is_index_change s.kind

unfoldable pub churn_note : Plan → Text
unfolding counts show
churn_note p =
    let redefines = count_if redefines_column p.statements in
    let indexes = count_if changes_index p.statements in
    let shapes =
      if indexes == 0
      then codes "redefine a column"
      else if redefines == 0
      then codes "drop or add an index"
      else codes "redefine a column ("
        ++ (show redefines
            ++ (codes ") or drop or add an index (" ++ (show indexes ++ codes ")"))) in
    if redefines + indexes == 0
    then []
    else show (redefines + indexes)
      ++ (codes " of "
          ++ (show (counts p).total
              ++ (codes " statements "
                  ++ (shapes
                      ++ codes
                          " — on MySQL those are the two shapes no-op churn takes, and\na statement that reappears on every deploy is almost certainly one of them.\nCompare them against the schema you actually have before reading them as changes."))))
