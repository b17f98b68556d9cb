-- ===== src/App/Outcome.antt =====
-- app/command_deploy_outcome.go, with `classifySchemaOutcome`, `exitCodeForOutcome` of
-- app/deploy_schema_gate.go and `stepApplySchema` of app/deploy_pipeline.go: what the schema step of
-- a deploy ended in, and what the user is told of it.
pub mod Reports
pub mod RolledBack
use nuzur_cli.App.Gate.{GateResult, ApplyError, schema_blocked, run_failed, apply_schema}
use nuzur_cli.Base.{
  ℕ, Bool, true, false, not, ◌&&◌, ◌||◌, List, [], ◌∷◌, ◌++◌, Option, none, some, ◌==◌, length,
  is_nil, if◌then◌else◌,
}
use nuzur_cli.ExtensionRun.Poll.{Report}
use nuzur_cli.SqlPlan.Plan.{destructive, empty}
use nuzur_cli.SqlPlan.Render.{transactional}
use nuzur_cli.SqlPlan.Types.{Engine, Plan}
use nuzur_cli.Text.Decimal.{show}
use nuzur_cli.Text.{Text, codes, join}

pub data SchemaOutcomeState : Type 0 where
  failed_during_apply applied blocked not_attempted failed_before_sql : SchemaOutcomeState

pub record DeployOutcome : Type 0 where
  pub catalog_published : Bool
  pub catalog_not_applicable : Bool
  pub schema : SchemaOutcomeState
  pub destructive_count : ℕ
  pub rerun_command : Text
  pub destructive_applied : Bool
  pub app_shipped : Bool
  pub schema_rolled_back : Bool

unfoldable pub classify_schema_outcome : Option ApplyError → GateResult → SchemaOutcomeState
classify_schema_outcome none gate = applied
classify_schema_outcome (some e) gate =
    if gate.blocked
    then blocked
    else if not gate.sql_issued
    then failed_before_sql
    else failed_during_apply

-- What `stepApplySchema` writes into the outcome for each state.
unfoldable pub record_outcome :
    Engine → Text → DeployOutcome → GateResult → SchemaOutcomeState → DeployOutcome
record_outcome engine rerun o gate applied =
    if gate.destructive_applied
    then record o {
      schema = applied;
      destructive_applied = true;
      destructive_count = length (destructive gate.plan);
    }
    else record o { schema = applied }
record_outcome engine rerun o gate blocked = record o {
  schema = blocked;
  destructive_count = length (destructive gate.plan);
  rerun_command = rerun;
}
record_outcome engine rerun o gate failed_during_apply = record o {
  schema = failed_during_apply;
  schema_rolled_back = not (empty gate.plan) && transactional gate.plan engine;
}
record_outcome engine rerun o gate not_attempted = record o { schema = not_attempted }
record_outcome engine rerun o gate failed_before_sql = record o { schema = failed_before_sql }

-- `stepApplySchema`; `rerun` is the command line that would authorize the migration.
unfoldable pub step_apply_schema :
    Engine → Bool → Text → DeployOutcome → Bool → List Report → DeployOutcome
step_apply_schema engine allow_destructive rerun o reached reports =
    let ran = apply_schema engine allow_destructive reached reports in
    record_outcome engine rerun o ran.1 (classify_schema_outcome ran.0 ran.1)

-- The outcome that `stepPublishCatalog` leaves: the catalog may have failed.
unfoldable pub publish_catalog : Bool → Bool → DeployOutcome
publish_catalog published db_only = record {
  catalog_published = published;
  catalog_not_applicable = false;
  schema = applied;
  destructive_count = 0;
  rerun_command = [];
  destructive_applied = false;
  app_shipped = not db_only;
  schema_rolled_back = false;
}

-- Applied, or told to leave the database alone.
abbrev is_settled : SchemaOutcomeState → Bool
is_settled applied = true
is_settled not_attempted = true
is_settled failed_during_apply = false
is_settled blocked = false
is_settled failed_before_sql = false

unfoldable pub exit_code_for_outcome : DeployOutcome → ℕ
exit_code_for_outcome o = if is_settled o.schema then 0 else 1

pub data OutputColor : Type 0 where
  red yellow : OutputColor

unfoldable pub summary_color : DeployOutcome → OutputColor
summary_color o = if is_settled o.schema then yellow else red

unfoldable pub plural : ℕ → Text → Text
unfolding show
plural n noun = if n == 1 then codes "1 " ++ noun else show n ++ (b' ' ∷ (noun ++ codes "s"))

unfoldable pub mismatch_warning : DeployOutcome → Text
mismatch_warning o =
    if not o.app_shipped
    then []
    else codes
        "\n\nThe app on this box was already rebuilt and restarted, so it is now serving generated code that does NOT match the database — every endpoint whose entity changed will fail. To restore service without applying the migration, re-deploy the version that was running before this one (`nuzur-cli deploy list` names the deployment; its revision history in nuzur names the version)."

abbrev unpublished : DeployOutcome → Bool
unpublished o = not o.catalog_published && not o.catalog_not_applicable

-- The part of the summary for the schema; none where it was applied or not attempted.
unfoldable pub schema_parts : DeployOutcome → SchemaOutcomeState → List Text
unfolding plural mismatch_warning
schema_parts o blocked =
    (codes "The schema was NOT applied: "
      ++ (plural o.destructive_count (codes "statement")
          ++ (codes
                " would DELETE DATA, and --allow-destructive was not passed. Nothing was changed in the database — not the destructive statements and not the rest of the migration, because when the gate fires the deploy sends the database nothing at all."
              ++ ((if is_nil o.rerun_command
                    then []
                    else codes "\n\nTo apply it, re-run with authorization:\n  " ++ o.rerun_command)
                  ++ (codes
                        "\n\nRun the same command with --plan to read the full migration first — a plan applies nothing."
                      ++ mismatch_warning o)))))
    ∷ []
schema_parts o failed_before_sql =
    codes
      "The schema was NOT applied (see the error above). The failure happened before the migration was sent — while resolving the SQL-push extension, reaching the database, or computing the diff. No SQL was sent to the database. The app and database are unchanged and consistent; re-run the deploy or apply via SQL Push."
    ∷ []
schema_parts o failed_during_apply =
    (codes "The schema was NOT applied (see the error above). "
      ++ ((if o.schema_rolled_back
            then codes
                "It was sent as one transaction, so the whole migration rolled back and the database is as it was. "
            else codes
                "The deploy cannot tell you what state the database is in: this migration was not applied as one unit, so a statement that failed partway through leaves the ones before it applied. Check the database before retrying. ")
          ++ (codes
                "Read the migration with --plan first — a plan applies nothing. If the failure is deterministic (a cast the engine rejects, a constraint the existing rows violate), re-running the deploy reproduces it: fix the data or the model instead."
              ++ mismatch_warning o)))
    ∷ []
schema_parts o applied = []
schema_parts o not_attempted = []

unfoldable pub summary : DeployOutcome → Text
unfolding schema_parts join
summary o =
    let catalog =
      if unpublished o
      then codes
          "The connection was NOT published to nuzur (see the error above), so this database will not appear in the data manager under \"Via agent\". The database and the agent are running on the box — re-run the deploy to retry publishing it."
        ∷ []
      else [] in
    join (catalog ++ schema_parts o o.schema) (codes "\n\n")

unfoldable pub revision_parts : DeployOutcome → SchemaOutcomeState → List Text
unfolding show
revision_parts o blocked =
    (codes "schema not applied: "
      ++ (show o.destructive_count ++ codes " destructive statement(s) need --allow-destructive"))
    ∷ []
revision_parts o failed_before_sql =
    codes "schema not applied: the apply failed before any SQL was sent" ∷ []
revision_parts o failed_during_apply = codes "schema not applied to the database" ∷ []
revision_parts o applied =
    if o.destructive_applied
    then (codes "schema applied including "
        ++ (show o.destructive_count ++ codes " destructive statement(s)"))
      ∷ []
    else []
revision_parts o not_attempted = []

unfoldable pub revision_message : DeployOutcome → Text
unfolding revision_parts join
revision_message o =
    join
      ((if unpublished o then codes "connection not published to nuzur" ∷ [] else [])
        ++ revision_parts o o.schema)
      (codes "; ")
