-- ===== src/SqlPlan/Types.antt =====
-- The data of sqlplan/plan.go: engines, severities, kinds, hazards, statements and plans.
use nuzur_cli.Base.{ℕ, Bool, true, false, not, List, map}
use nuzur_cli.Text.{Text}

pub data Engine : Type 0 where
  engine_unknown engine_mysql engine_postgres : Engine

abbrev pub is_postgres : Engine → Bool
is_postgres engine_postgres = true
is_postgres engine_unknown = false
is_postgres engine_mysql = false

pub data Severity : Type 0 where
  severity_none data_loss constraint_loss narrowing : Severity

-- The order by which the worst action of a statement decides it.
abbrev pub rank : Severity → ℕ
rank data_loss = 3
rank constraint_loss = 2
rank narrowing = 1
rank severity_none = 0

abbrev pub is_none : Severity → Bool
is_none severity_none = true
is_none data_loss = false
is_none constraint_loss = false
is_none narrowing = false

abbrev pub is_data_loss : Severity → Bool
is_data_loss data_loss = true
is_data_loss severity_none = false
is_data_loss constraint_loss = false
is_data_loss narrowing = false

pub data Kind : Type 0 where
  create_table create_index create_schema add_column add_constraint alter_column : Kind
  drop_table drop_column drop_index drop_constraint drop_schema drop_database : Kind
  truncate other : Kind

abbrev pub is_other : Kind → Bool
is_other other = true
is_other _ = false

pub record Hazard : Type 0 where
  pub severity : Severity
  pub kind : Kind
  pub object : Text
  pub reason : Text

-- What the classifier says of one statement.
pub record Classified : Type 0 where
  pub kind : Kind
  pub severity : Severity
  pub object : Text
  pub reason : Text
  pub hazards : List Hazard

pub record Statement : Type 0 where
  pub index : ℕ
  pub sql : Text
  pub kind : Kind
  pub severity : Severity
  pub object : Text
  pub reason : Text
  pub hazards : List Hazard

pub record Plan : Type 0 where
  pub statements : List Statement

pub record Counts : Type 0 where
  pub total : ℕ
  pub additive : ℕ
  pub data_losses : ℕ
  pub constraint_losses : ℕ
  pub narrowings : ℕ

abbrev pub severities : List Hazard → List Severity
severities = map (λ h. h.severity)

abbrev pub costly : Severity → Bool
costly sev = not (is_none sev)
