-- ===== src/App/Outcome/Reports.antt =====
-- The state of the outcome and the run that it is about (app/deploy_schema_gate.go,
-- app/deploy_pipeline.go).
use nuzur_cli.ExtensionRun.Poll.{Report, Session, Ending, succeeded}
use nuzur_cli.Text.{Text}
use nuzur_cli.SqlPlan.Types.{Engine}
use nuzur_cli.Base.{◌≡◌, ◌≢◌, true, false, arith, Bool, ◌↔◌, List, ◌⊎◌, Option, All, some}
use nuzur_cli.App.Gate.{GateResult, sql_push_run, schema_apply_decider, no_gate}
use nuzur_cli.App.Outcome.{
  Engine, exit_code_for_outcome, Text, Bool, DeployOutcome, List, applied, SchemaOutcomeState,
  Report, blocked, failed_before_sql, Option, failed_during_apply, not_attempted, some,
}

-- The exit code is zero exactly if the schema was applied or not attempted.
pub exit_code_for_outcome_iff :
    (o : DeployOutcome)
    → (exit_code_for_outcome o ≡ 0) ↔ ((o.schema ≡ applied) ⊎ (o.schema ≡ not_attempted))
unfolding exit_code_for_outcome
exit_code_for_outcome_iff o = ground arith

abbrev IsOpen : Session (GateResult × Bool) → Type 0
IsOpen s = s.state.0.blocked ≡ false

abbrev pub GateRun : Type 0
GateRun = Session (GateResult × Bool) × Option Ending

-- What a state says of the run.
abbrev pub HoldsOf : Bool → GateRun → SchemaOutcomeState → Type 0
HoldsOf allow run applied = run.1 ≡ some succeeded
HoldsOf allow run blocked = allow ≡ false
HoldsOf allow run failed_before_sql = All (λ x. x.confirmed ≡ false) run.0.sent
HoldsOf allow run failed_during_apply = (run.0.state.1 ≡ true) × (run.1 ≢ some succeeded)
HoldsOf allow run not_attempted = ⊥

module _ (engine : Engine) (allow reached : Bool) (reports : List Report) where
  abbrev run : GateRun
  run = sql_push_run (schema_apply_decider engine allow) no_gate reached reports
