-- ===== src/App/Outcome/RolledBack.antt =====
-- The flag of a migration that was rolled back (app/deploy_pipeline.go).
use nuzur_cli.Base.{◌≡◌, Bool, true, false, List, arith, ◌∙◌}
use nuzur_cli.ExtensionRun.Poll.{Report}
use nuzur_cli.SqlPlan.Types.{Engine, engine_postgres}
use nuzur_cli.SqlPlan.Render.{transactional}
use nuzur_cli.SqlPlan.Render.Atomic.{NoneForced, transactional_iff}
use nuzur_cli.Text.{Text}
use nuzur_cli.App.Gate.{GateResult, apply_schema}
use nuzur_cli.App.Outcome.{
  DeployOutcome, SchemaOutcomeState, failed_during_apply, record_outcome, step_apply_schema,
  classify_schema_outcome,
}

record_outcome-rolled_back :
    (engine : Engine) (rerun : Text) (o : DeployOutcome) (gate : GateResult)
    (st : SchemaOutcomeState)
    → o.schema_rolled_back ≡ false
    → (record_outcome engine rerun o gate st).schema_rolled_back ≡ true
    → (st ≡ failed_during_apply)
      × ((record_outcome engine rerun o gate st).schema ≡ st)
      × (transactional gate.plan engine ≡ true)
unfolding record_outcome
record_outcome-rolled_back engine rerun o gate st h e = ground arith

-- An outcome that said nothing of a rollback says after the schema step that the migration was
-- rolled back only if the state is `failed_during_apply`, the engine is Postgres, and none of the
-- statements that were shown has a construct that Postgres refuses in a transaction.
pub step_apply_schema-rolled_back :
    (engine : Engine) (allow reached : Bool) (reports : List Report) (rerun : Text)
    (o : DeployOutcome)
    → o.schema_rolled_back ≡ false
    → (step_apply_schema engine allow rerun o reached reports).schema_rolled_back ≡ true
    → ((step_apply_schema engine allow rerun o reached reports).schema ≡ failed_during_apply)
      × (engine ≡ engine_postgres)
      × NoneForced (apply_schema engine allow reached reports).1.plan.statements
unfolding step_apply_schema
step_apply_schema-rolled_back engine allow reached reports rerun o h e =
    let gate = (apply_schema engine allow reached reports).1 in
    let st = classify_schema_outcome (apply_schema engine allow reached reports).0 gate in
    let (during, recorded, whole) = record_outcome-rolled_back engine rerun o gate st h e in
    let (postgres, unforced) = (transactional_iff gate.plan engine).0 whole in
    (recorded ∙ during, postgres, unforced)
