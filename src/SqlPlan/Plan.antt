-- ===== src/SqlPlan/Plan.antt =====
-- sqlplan/plan.go: `Analyze`, and the questions that a caller asks of a plan.
pub mod Gauge
pub mod Labels
use nuzur_cli.Base.{
  ℕ, ◌+◌, Bool, false, not, ◌||◌, List, [], ◌∷◌, if◌then◌else◌, length, is_nil, select,
}
use nuzur_cli.SqlPlan.Classify.{classify}
use nuzur_cli.SqlPlan.Normalize.{normalize}
use nuzur_cli.SqlPlan.Split.{split}
use nuzur_cli.SqlPlan.Types.{
  Engine, Severity, severity_none, data_loss, constraint_loss, narrowing, is_data_loss, Classified,
  Statement, Plan, Counts,
}
use nuzur_cli.SqlPlan.Words.{contains_word}
use nuzur_cli.Text.{Text, codes}

abbrev pub destructive_statement : Statement → Bool
destructive_statement s = is_data_loss s.severity

-- `Statement.Destructive` on each statement, in execution order.
unfoldable pub destructive : Plan → List Statement
destructive p = select destructive_statement p.statements

unfoldable pub has_destructive : Plan → Bool
unfolding destructive
has_destructive p = not (is_nil (destructive p))

abbrev pub empty : Plan → Bool
empty p = is_nil p.statements

abbrev count_one : Counts → Severity → Counts
count_one c data_loss = record c { data_losses = c.data_losses + 1 }
count_one c constraint_loss = record c { constraint_losses = c.constraint_losses + 1 }
count_one c narrowing = record c { narrowings = c.narrowings + 1 }
count_one c severity_none = record c { additive = c.additive + 1 }

unfoldable pub count_all : Counts → List Statement → Counts
count_all c [] = c
count_all c (s ∷ ss) = count_all (count_one c s.severity) ss

unfoldable pub counts : Plan → Counts
unfolding count_all
counts p =
    let start : Counts = record {
      total = length p.statements;
      additive = 0;
      data_losses = 0;
      constraint_losses = 0;
      narrowings = 0;
    } in
    count_all start p.statements

unfoldable pub statement_of : ℕ → Text → Classified → Statement
statement_of idx frag c = record {
  index = idx + 1;
  sql = frag;
  kind = c.kind;
  severity = c.severity;
  object = c.object;
  reason = c.reason;
  hazards = c.hazards;
}

unfoldable pub label_all : ℕ → List Text → List Statement
unfolding statement_of classify
label_all idx [] = []
label_all idx (frag ∷ frags) = statement_of idx frag (classify frag) ∷ label_all (idx + 1) frags

unfoldable pub analyze : Text → Engine → Plan
unfolding label_all split
analyze apply_sql engine = record { statements = label_all 0 (split apply_sql engine) }

abbrev pub non_transactional_keywords : List Text
non_transactional_keywords =
    codes "CONCURRENTLY"
    ∷ codes "VACUUM"
    ∷ codes "CREATE DATABASE"
    ∷ codes "DROP DATABASE"
    ∷ codes "ALTER SYSTEM"
    ∷ codes "TABLESPACE"
    ∷ []

unfoldable pub mentions : Text → List Text → Bool
unfolding contains_word
mentions norm [] = false
mentions norm (kw ∷ kws) = contains_word norm kw || mentions norm kws

unfoldable pub indices_mentioning : List Statement → List ℕ
unfolding mentions normalize
indices_mentioning [] = []
indices_mentioning (s ∷ ss) =
    let rest = indices_mentioning ss in
    if mentions (normalize s.sql) non_transactional_keywords then s.index ∷ rest else rest

unfoldable pub non_transactional_statements : Plan → List ℕ
unfolding indices_mentioning
non_transactional_statements p = indices_mentioning p.statements
