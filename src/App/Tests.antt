-- ===== src/App/Tests.antt =====
-- Concrete runs: instances of the theorems about the gate and the outcome, and runs of the code.
use nuzur_cli.Base.{◌≡◌, true, false, List, [], ◌∷◌, All, refl}
use nuzur_cli.ExtensionRun.Poll.{
  poll, Report, confirmation, execution_succeeded, execution_cancelled, execution_failed,
}
use nuzur_cli.SqlPlan.Types.{engine_mysql}
use nuzur_cli.SqlPlan.Plan.{analyze, has_destructive}
use nuzur_cli.App.Args.{
  require_no_args, stray_args_error, quoted_list, bool_flag_hint, dropped_flags, flags_among,
  is_bool_flag_value, hint_for, flag_before, flag_from, is_bare_flag, has_equals, is_flag_like,
}
use nuzur_cli.Text.{has_prefix, to_lower}
use nuzur_cli.Text.Decimal.{show}
use nuzur_cli.App.Destroy.{
  DestroyOutcome, teardown_done, vm_not_applicable, destroy_summary, headline, headline_clauses,
  server_clause, vm_clauses, database_line, on_box,
}
use nuzur_cli.Text.{equal, join}
use nuzur_cli.App.Gate.{
  track, apply_schema, decide_schema_apply, schema_apply_decider, sql_push_run, no_gate,
}
use nuzur_cli.App.Gate.Safety.{Harmless, unauthorized-Harmless}
use nuzur_cli.App.Outcome.{
  record_outcome, classify_schema_outcome, step_apply_schema, applied, blocked, publish_catalog,
}
use nuzur_cli.Text.{codes}

abbrev dropping : List Report
dropping =
    confirmation (record { step_identifier = codes "review"; content = codes "DROP TABLE t;" }) true
    ∷ execution_cancelled
    ∷ []

abbrev adding : List Report
adding =
    confirmation
      (record { step_identifier = codes "review"; content = codes "CREATE TABLE t (x int)" }) true
    ∷ execution_succeeded true
    ∷ []

unauthorized-Harmless_example :
    All
      (Harmless engine_mysql)
      (sql_push_run (schema_apply_decider engine_mysql false) no_gate true dropping).0.sent
unauthorized-Harmless_example = unauthorized-Harmless engine_mysql true dropping

-- A run with a plan that deletes nothing is applied, and one that does is blocked.
applies_adding :
    (step_apply_schema engine_mysql false
      (codes "nuzur")
      (publish_catalog true true)
      true
      adding).schema
    ≡ applied
unfolding step_apply_schema publish_catalog record_outcome classify_schema_outcome apply_schema
    sql_push_run poll track schema_apply_decider decide_schema_apply analyze has_destructive
applies_adding = refl

blocks_dropping :
    (step_apply_schema engine_mysql false
      (codes "nuzur")
      (publish_catalog true true)
      true
      dropping).schema
    ≡ blocked
unfolding step_apply_schema publish_catalog record_outcome classify_schema_outcome apply_schema
    sql_push_run poll track schema_apply_decider decide_schema_apply analyze
blocks_dropping = refl

abbrev failing : List Report
failing =
    confirmation
      (record { step_identifier = codes "review"; content = codes "CREATE TABLE t (x int)" }) true
    ∷ execution_failed
    ∷ []

abbrev purged : DestroyOutcome
purged = record {
  id = codes "a";
  provider = codes "ssh";
  is_last = true;
  provisioning = false;
  server = teardown_done;
  vm = vm_not_applicable;
  revoked = true;
  purge = true;
  external_db = false;
}

says_dropped :
    destroy_summary purged
    ≡ codes
        "Destroyed deployment a (server cleaned up; shared agent revoked — last project on the box)."
      ∷ codes "  The database and its app user were dropped (--purge)."
      ∷ []
unfolding destroy_summary headline headline_clauses server_clause vm_clauses database_line on_box
    join
says_dropped = refl

explains_the_dropped :
    require_no_args
      (λ s. s)
      (codes "deploy")
      (codes "false" ∷ codes "--db" ∷ [])
      (codes "nuzur-cli" ∷ codes "deploy" ∷ codes "--custom" ∷ codes "false" ∷ codes "--db" ∷ [])
    ≡ codes
        "`nuzur-cli deploy` takes no positional arguments, but got 2 — false, --db.\nDid you mean `--custom=false`? Boolean flags need the `=` form: `--custom false` sets --custom to TRUE and leaves false behind as a positional argument.\nFlag parsing stops at the first positional argument, so these were NOT applied: --db."
unfolding require_no_args stray_args_error quoted_list bool_flag_hint dropped_flags flags_among show
    is_bool_flag_value hint_for flag_before flag_from is_bare_flag has_equals has_prefix
    is_flag_like equal join to_lower
explains_the_dropped = refl
