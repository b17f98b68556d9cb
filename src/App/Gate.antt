-- ===== src/App/Gate.antt =====
-- app/deploy_schema_gate.go, and the run of SQL push in app/deploy_schema_push.go and `applySchema`
-- of app/command_deploy.go: whether a deploy may apply a migration, and what then happened to it.
pub mod Safety
use nuzur_cli.Base.{
  ℕ, Bool, true, false, not, ◌&&◌, ◌||◌, List, [], ◌∷◌, ◌++◌, Option, none, some, length, is_nil,
  if◌then◌else◌,
}
use nuzur_cli.ExtensionRun.Poll.{
  StepPrompt, StepDecision, Decider, Report, Ending, succeeded, failed, cancelled, Session, poll,
  open_session,
}
use nuzur_cli.SqlPlan.Plan.{analyze, destructive, has_destructive}
use nuzur_cli.SqlPlan.Types.{Engine, Plan}
use nuzur_cli.Text.Decimal.{show}
use nuzur_cli.Text.{Text, codes}

pub record GateResult : Type 0 where
  pub plan : Plan
  pub blocked : Bool
  pub destructive_applied : Bool
  pub sql_issued : Bool

-- Whether to confirm, and why.
unfoldable pub decide_schema_apply : Plan → Bool → StepDecision
unfolding destructive show
decide_schema_apply p allow_destructive =
    let n = show (length (destructive p)) in
    if is_nil (destructive p)
    then record { confirm = true; reason = codes "no statements delete data" }
    else if allow_destructive
    then record {
      confirm = true;
      reason = codes "--allow-destructive authorized " ++ (n ++ codes " destructive statement(s)");
    }
    else record {
      confirm = false;
      reason = n ++ codes " statement(s) would delete data and --allow-destructive was not passed";
    }

-- `schemaApplyDecider`, without what it prints.
unfoldable pub schema_apply_decider : Engine → Bool → Decider GateResult
schema_apply_decider engine allow_destructive out prompt =
    let plan = analyze prompt.content engine in
    let decision = decide_schema_apply plan allow_destructive in
    let seen = record out { plan = plan } in
    if not decision.confirm
    then (record seen { blocked = true }, some decision)
    else if has_destructive plan
    then (record seen { destructive_applied = true }, some decision)
    else (seen, some decision)

-- `sqlPushProgress.track` round a decider: the answer is recorded as it is given.
abbrev confirms : Option StepDecision → Bool
confirms none = false
confirms (some d) = d.confirm

unfoldable pub track : {S : Type 0} → Decider S → Decider (S × Bool)
track decide (state, sql_issued) prompt =
    let decided = decide state prompt in ((decided.0, confirms decided.1 || sql_issued), decided.1)

pub data ApplyError : Type 0 where
  schema_blocked : ApplyError
  run_failed : ApplyError

abbrev pub error_of : Option Ending → Option ApplyError
error_of (some succeeded) = none
error_of (some failed) = some run_failed
error_of (some cancelled) = some run_failed
error_of none = some run_failed

abbrev pub no_gate : GateResult
no_gate = record {
  plan = record { statements = [] };
  blocked = false;
  destructive_applied = false;
  sql_issued = false;
}

-- The session of `sqlPushRun`, on the reports that the server gives. Where the extension is not
-- found, or the run does not start, there is none (`reached` is false).
unfoldable pub sql_push_run :
    {S : Type 0} → Decider S → S → Bool → List Report → Session (S × Bool) × Option Ending
sql_push_run decide state reached reports =
    let session = open_session (state, false) in
    if reached then poll (track decide) session reports else (session, some failed)

-- `applySchema`: its error, and what the gate observed.
unfoldable pub apply_schema : Engine → Bool → Bool → List Report → Option ApplyError × GateResult
apply_schema engine allow_destructive reached reports =
    let run =
      sql_push_run (schema_apply_decider engine allow_destructive) no_gate reached reports in
    let gate = record (run.0.state.0) { sql_issued = run.0.state.1 } in
    (if gate.blocked then some schema_blocked else error_of run.1, gate)

-- `preflightSchemaGate`: whether the deploy stops before it ships. `none` is a plan that could not
-- be computed.
unfoldable pub preflight_stops : Engine → Option Text → Bool
unfolding analyze decide_schema_apply
preflight_stops engine none = false
preflight_stops engine (some apply_sql) =
    not (decide_schema_apply (analyze apply_sql engine) false).confirm
