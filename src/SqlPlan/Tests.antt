-- ===== src/SqlPlan/Tests.antt =====
-- Concrete scripts: instances of the theorems about sqlplan, and runs of the code.
use nuzur_cli.Base.{◌≡◌, ◌↔◌, List, [], ◌∷◌, true, some, length, All, ◌≤◌, refl, false, none}
use nuzur_cli.SqlPlan.Types.{
  engine_mysql, Hazard, data_loss, narrowing, add_column, alter_column, rank,
}
use nuzur_cli.SqlPlan.Split.{split, run, start}
use nuzur_cli.SqlPlan.Split.Substrings.{IsSplit, split-IsSplit}
use nuzur_cli.SqlPlan.Split.Progress.{run-split}
use nuzur_cli.SqlPlan.Normalize.{normalize}
use nuzur_cli.SqlPlan.Words.Occurs.{occurs, contains_word-occurs}
use nuzur_cli.SqlPlan.Words.{contains_word}
use nuzur_cli.SqlPlan.Classify.{classify, classify_alter_table}
use nuzur_cli.SqlPlan.Classify.Costs.{costs}
use nuzur_cli.SqlPlan.Classify.Worst.{IsSummary, classify_alter_table-worst, classify-IsSummary}
use nuzur_cli.SqlPlan.Classify.DataLoss.{DeletesData, classify-data_loss_iff}
use nuzur_cli.SqlPlan.Plan.{analyze, has_destructive}
use nuzur_cli.Text.{Text, codes}

abbrev pub script : Text
script = codes "CREATE TABLE a (x int);\nALTER TABLE t ADD y int, DROP z;"

abbrev altering : Text
altering = codes "ALTER TABLE t ADD y int, DROP z, MODIFY x int"

abbrev quoted : Text
quoted = codes "-- hi; there\nSELECT ';' ;; # x;\nDELIMITER //\nbegin a; b; end//x"

-- Semicolons in comments, in strings and under a delimiter directive cut nothing.
split-quoted :
    split quoted engine_mysql
    ≡ codes "-- hi; there\nSELECT ';'" ∷ codes "begin a; b; end" ∷ codes "x" ∷ []
unfolding split
split-quoted = refl

-- A comment with `#` hides the statement behind it from the classifier.
abbrev hash_comment : Text
hash_comment = codes "# c\nDROP TABLE t;"

hash_comment_hides : has_destructive (analyze hash_comment engine_mysql) ≡ false
unfolding analyze has_destructive
hash_comment_hides = refl

-- So does a literal with two dashes, for what follows on its line, and a comment that the server runs.
abbrev dashes_in_literal : Text
dashes_in_literal = codes "ALTER TABLE t ADD c text DEFAULT '--', DROP d;"

dashes_in_literal_hide :
    (has_destructive (analyze dashes_in_literal engine_mysql) ≡ false)
    × (length (split dashes_in_literal engine_mysql) ≡ 1)
unfolding analyze has_destructive split
dashes_in_literal_hide = (refl, refl)

abbrev executable_comment : Text
executable_comment = codes "/*! DROP TABLE t */;"

executable_comment_hides :
    (has_destructive (analyze executable_comment engine_mysql) ≡ false)
    × (length (split executable_comment engine_mysql) ≡ 1)
unfolding analyze has_destructive split
executable_comment_hides = (refl, refl)

abbrev hazards : List Hazard
hazards =
    record { severity = narrowing; kind = alter_column; object = codes "x"; reason = [] }
    ∷ record { severity = data_loss; kind = add_column; object = codes "y"; reason = [] }
    ∷ record { severity = narrowing; kind = alter_column; object = codes "z"; reason = [] }
    ∷ []

classify-data_loss_iff_example :
    ((classify altering).severity ≡ data_loss) ↔ DeletesData (normalize altering)
classify-data_loss_iff_example = classify-data_loss_iff altering

split-IsSplit_example : IsSplit quoted (split quoted engine_mysql)
split-IsSplit_example = split-IsSplit quoted engine_mysql

run-split_example : run (length quoted) (start true) quoted ≡ some (split quoted engine_mysql)
run-split_example = run-split quoted engine_mysql

classify_alter_table-worst_example :
    All (λ sev. rank sev ≤ rank (classify_alter_table altering).severity) (costs altering)
classify_alter_table-worst_example = classify_alter_table-worst altering

classify-IsSummary_example : IsSummary (classify altering)
classify-IsSummary_example = classify-IsSummary altering

contains_word-occurs_example :
    contains_word (codes "ALTER COLUMN ATYPE TYPE int") (codes "TYPE")
    ≡ occurs none (codes "TYPE") (codes "ALTER COLUMN ATYPE TYPE int")
contains_word-occurs_example =
    contains_word-occurs (codes "ALTER COLUMN ATYPE TYPE int") b'T' (codes "YPE")
