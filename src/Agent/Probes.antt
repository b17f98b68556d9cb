-- ===== src/Agent/Probes.antt =====
-- What the agent answers to a request for a schema plan (agent/handler_pg_schema_plan.go) and for metrics
-- (agent/handler_deployment_metrics.go). The run of pg-schema-diff, the probes of the machine and how fmt quotes are arguments.
pub mod Guarded
use nuzur_cli.Base.{
  ℕ, Bool, true, false, not, ◌&&◌, List, [], ◌∷◌, ◌++◌, Option, none, some, ◌⊎◌, inl, inr,
  if◌then◌else◌, is_nil,
}
use nuzur_cli.Base.Int.{ℤ, pos}
use nuzur_cli.Text.{Text, codes, equal, join}
use nuzur_cli.Agent.Connections.{Entry, find_by_uuid}
use nuzur_cli.Agent.Dsn.{pg_keyword_dsn}

pub record PlanRequest : Type 0 where
  pub conn : Text
  pub schema : Text
  pub existing_create_sql : Text
  pub new_create_sql : Text
  pub use_live_schema_source : Bool

-- The arguments of `computePgPlan`, with whether the existing side is the live database.
abbrev pub PgPlan : Type 0
PgPlan = (base_dsn schema existing_sql new_sql : Text) → (use_live : Bool) → Text ⊎ Text

pub record PlanTools : Type 0 where
  pub quote : Text → Text
  pub parse_url : Text → Text ⊎ Text
  pub compute : PgPlan

abbrev pub named_schema : Text → Text
named_schema schema = if is_nil schema then codes "public" else schema

unfoldable pub plan_on : PlanTools → PlanRequest → Text ⊎ Text → Text ⊎ Text
plan_on t r (inl e) = inl (codes "parsing connection DSN: " ++ e)
plan_on t r (inr base_dsn) =
    if not r.use_live_schema_source && is_nil r.existing_create_sql
    then inl (
        codes
          "compute pg schema plan: existing_create_sql is empty and use_live_schema_source is not set")
    else t.compute base_dsn (named_schema r.schema) r.existing_create_sql r.new_create_sql
        r.use_live_schema_source

unfoldable pub plan_for : PlanTools → PlanRequest → Option Entry → Text ⊎ Text
unfolding plan_on pg_keyword_dsn equal
plan_for t r none = inl (codes "no local connection registered for uuid " ++ r.conn)
plan_for t r (some e) =
    if not (equal e.driver (codes "postgres"))
    then inl
        (codes "compute pg schema plan requires a postgres connection, got " ++ t.quote e.driver)
    else if is_nil e.dsn
    then inl (codes "connection " ++ (t.quote e.name ++ codes " has no DSN in the OS keychain"))
    else plan_on t r (pg_keyword_dsn t.parse_url e.dsn)

-- The error of `handleComputePgSchemaPlan`, or the statements that it sends.
unfoldable pub schema_plan : PlanTools → List Entry → PlanRequest → Text ⊎ Text
unfolding plan_for find_by_uuid
schema_plan t registry r = plan_for t r (find_by_uuid r.conn registry)

pub record MetricsRequest : Type 0 where
  pub full_app : Bool
  pub identifier : Text
  pub conn : Text

pub record DeploymentMetrics : Type 0 where
  pub app_service_active : Bool
  pub container_status : Text
  pub restart_count : ℤ
  pub db_reachable : Bool
  pub probe_error : Text

-- `systemctlIsActive`, `dockerInspectStatus` and `pingConnection`.
pub record Probes : Type 0 where
  pub service_active : Text → Bool
  pub inspect : Text → Text ⊎ (Text × ℤ)
  pub ping : Text → Text ⊎ Bool

abbrev pub no_metrics : DeploymentMetrics
no_metrics = record {
  app_service_active = false;
  container_status = [];
  restart_count = pos 0;
  db_reachable = false;
  probe_error = [];
}

-- The metrics of a container, and the error of its probe.
unfoldable pub with_container :
    Text ⊎ (Text × ℤ) → DeploymentMetrics → DeploymentMetrics × List Text
with_container (inl e) m = (m, (codes "container: " ++ e) ∷ [])
with_container (inr (status, restarts)) m =
    (record m { container_status = status; restart_count = restarts }, [])

unfoldable pub probe_app : Probes → MetricsRequest → DeploymentMetrics × List Text
unfolding with_container
probe_app p r =
    if r.full_app && not (is_nil r.identifier)
    then with_container (p.inspect (r.identifier ++ codes "-api")) (record no_metrics {
      app_service_active = p.service_active (r.identifier ++ codes "-api.service");
    })
    else (no_metrics, [])

unfoldable pub with_ping :
    Text ⊎ Bool → DeploymentMetrics × List Text → DeploymentMetrics × List Text
with_ping (inl e) (m, errs) =
    (record m { db_reachable = false }, errs ++ ((codes "db: " ++ e) ∷ []))
with_ping (inr reachable) (m, errs) = (record m { db_reachable = reachable }, errs)

unfoldable pub joined : DeploymentMetrics × List Text → DeploymentMetrics
unfolding join
joined (m, errs) = if is_nil errs then m else record m { probe_error = join errs (codes "; ") }

-- The metrics that `handleCollectDeploymentMetrics` sends.
unfoldable pub deployment_metrics : Probes → MetricsRequest → DeploymentMetrics
unfolding probe_app with_ping joined
deployment_metrics p r =
    let app = probe_app p r in joined (if is_nil r.conn then app else with_ping (p.ping r.conn) app)
