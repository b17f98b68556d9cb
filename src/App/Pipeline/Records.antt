-- ===== src/App/Pipeline/Records.antt =====
-- The writes of the deployment record by a run: by the steps of app/deploy_pipeline.go (`stepPendingRecord`,
-- `stepProvision`, `stepRecordBox`, `stepWaitAgent`, `stepFinalizeRecord`), by `stepK8sRelease` of
-- app/deploy_k8s.go, and by `Deploy` of app/command_deploy.go when the run failed, each the function that
-- is given to `MutateDeployment`.
pub mod Carried
pub mod Untouched
use nuzur_cli.Base.{
  inl, inr, ℕ, Bool, true, false, not, ◌&&◌, List, [], ◌∷◌, Option, none, some, if◌then◌else◌,
  is_nil,
}
use nuzur_cli.Deploy.{
  Provider, Deployment, creates_infrastructure, step_pending_recorded, step_instance_created,
  step_box_recorded, step_agent_paired, step_released, step_finalized,
}
use nuzur_cli.Deploy.Store.{Dir, SaveError, mutate_deployment, load_deployment, last_moment}
use nuzur_cli.App.Targeting.{known_agent_uuid}
use nuzur_cli.Text.{Text}

-- `deploy.InstanceRef`, which a provider acknowledges a server with.
pub record InstanceRef : Type 0 where
  pub instance_id : Text
  pub region : Text
  pub host : Text

-- What the writes read of `deployState`, and the time of the write.
pub record RunFacts : Type 0 where
  pub now : ℕ
  pub provider : Provider
  pub resource_name : Text
  pub region : Text
  pub identifier : Text
  pub project_uuid : Text
  pub project_version_uuid : Text
  pub db_engine : Text
  pub external_db : Bool
  pub workspace_dir : Text
  pub prov_instance_id : Text
  pub prov_region : Text
  pub target_host : Text
  pub target_user : Text
  pub target_port : ℕ
  pub conn_uuid : Text
  pub conn_flag : Text
  pub domain : Text
  pub auth_domain : Text
  pub grpc_domain : Text
  pub prior : Option Deployment
  pub reuse_agent_uuid : Text
  pub reuse_box : Bool
  pub box_record : Option Deployment
  pub agent_uuid : Text
  pub public_url : Text
  pub data_manager_url : Text
  pub namespace : Text
  pub release_name : Text
  pub chart_version : Text
  pub image_ref : Text

-- `recordBoxWorkspace`
unfoldable pub record_box_workspace : Text → Deployment → Deployment
record_box_workspace [] r = r
record_box_workspace (c ∷ dir) r = record r { workspace_dir = c ∷ dir }

unfoldable pub record_pending : RunFacts → Deployment → Deployment
record_pending s r = record r {
  provider = s.provider;
  provider_resource_name = s.resource_name;
  provisioning = true;
  region = s.region;
  identifier = s.identifier;
  project_uuid = s.project_uuid;
  project_version_uuid = s.project_version_uuid;
  db_engine = s.db_engine;
  workspace_dir = s.workspace_dir;
  created_at = s.now;
  last_completed_step = step_pending_recorded;
}

unfoldable pub record_instance : InstanceRef → Deployment → Deployment
record_instance ref r = record r {
  provider_instance_id = ref.instance_id;
  region = ref.region;
  host = if is_nil ref.host then r.host else ref.host;
  last_completed_step = step_instance_created;
}

-- Whether the prior record has what a server is deleted by.
abbrev pub has_handle : Deployment → Bool
has_handle p =
    creates_infrastructure p.provider
    && not (is_nil p.provider_instance_id && is_nil p.provider_resource_name)

-- `carryForwardProvisioning`
unfoldable pub carry_forward : Provider → Deployment → Deployment → Deployment
carry_forward provider p r =
    if not (creates_infrastructure provider) && has_handle p
    then record r {
      provider = p.provider;
      provider_instance_id = p.provider_instance_id;
      provider_resource_name = p.provider_resource_name;
      region = if is_nil r.region then p.region else r.region;
    }
    else r

-- The time of the deploy, and the handles of the server, by the records it goes on from.
unfoldable pub record_origin :
    RunFacts → Option Deployment → Option Deployment → Deployment → Deployment
unfolding carry_forward
record_origin s (some p) adopted r =
    carry_forward s.provider p (record r { created_at = p.created_at })
record_origin s none (some a) r = record r { created_at = a.created_at }
record_origin s none none r = r

abbrev pub adopted_record : RunFacts → Option Deployment
adopted_record s = if s.reuse_box then s.box_record else none

-- The fields that `stepRecordBox` writes before the workspace and the origin.
unfoldable pub record_box_fields : RunFacts → Deployment → Deployment
unfolding known_agent_uuid
record_box_fields s r = record r {
  provider = s.provider;
  provider_instance_id = s.prov_instance_id;
  provider_resource_name = s.resource_name;
  provisioning = false;
  region = s.prov_region;
  host = s.target_host;
  user = s.target_user;
  port = s.target_port;
  identifier = s.identifier;
  project_uuid = s.project_uuid;
  project_version_uuid = s.project_version_uuid;
  conn_uuid = s.conn_uuid;
  db_engine = s.db_engine;
  external_db = s.external_db;
  domain = s.domain;
  auth_domain = s.auth_domain;
  grpc_domain = s.grpc_domain;
  local_agent_uuid = known_agent_uuid s.prior s.reuse_agent_uuid (adopted_record s);
  created_at = s.now;
}

unfoldable pub record_box : RunFacts → Deployment → Deployment
unfolding record_box_fields record_box_workspace record_origin
record_box s r =
    record (record_origin s s.prior (adopted_record s)
      (record_box_workspace s.workspace_dir (record_box_fields s r))) {
        last_completed_step = step_box_recorded;
      }

unfoldable pub record_agent : RunFacts → Deployment → Deployment
record_agent s r = record r {
  local_agent_uuid = s.agent_uuid;
  last_completed_step = step_agent_paired;
}

unfoldable pub record_final : RunFacts → Deployment → Deployment
unfolding record_box_workspace
record_final s r =
    let placed = record_box_workspace s.workspace_dir r in
    record placed {
      local_agent_uuid = s.agent_uuid;
      api_url = s.public_url;
      public_url = s.public_url;
      data_manager_url = s.data_manager_url;
      team_conn_uuid = if is_nil s.conn_flag then r.team_conn_uuid else s.conn_flag;
      last_completed_step = step_finalized;
      last_error = [];
    }

-- The write of `stepK8sRelease`
unfoldable pub record_release : RunFacts → Deployment → Deployment
record_release s r = record r {
  namespace = s.namespace;
  release_name = s.release_name;
  chart_version = s.chart_version;
  image_ref = s.image_ref;
  last_completed_step = step_released;
}

-- The write of a run that failed, with its error.
unfoldable pub record_failure : Text → Deployment → Deployment
record_failure e r = record r { last_error = e }

-- A write of the record, with what the run knew then.
pub data RecordWrite : Type 0 where
  pending : RunFacts → RecordWrite
  instance_created : InstanceRef → RecordWrite
  box_recorded : RunFacts → RecordWrite
  agent_paired : RunFacts → RecordWrite
  released : RunFacts → RecordWrite
  finalized : RunFacts → RecordWrite
  failure_noted : Text → RecordWrite

unfoldable pub write_record : RecordWrite → Deployment → Deployment
unfolding record_pending record_instance record_box record_agent record_release record_final
    record_failure
write_record (pending s) r = record_pending s r
write_record (instance_created ref) r = record_instance ref r
write_record (box_recorded s) r = record_box s r
write_record (agent_paired s) r = record_agent s r
write_record (released s) r = record_release s r
write_record (finalized s) r = record_final s r
write_record (failure_noted e) r = record_failure e r

unfoldable pub write_once : Text → RecordWrite → Option SaveError → Dir → Dir
unfolding write_record mutate_deployment
write_once id w fault d =
    last_moment d (mutate_deployment id (some (write_record w)) fault d).moments

-- A failure is only written to a record that loads, so that it never makes one.
unfoldable pub apply_write : Text → RecordWrite → Option SaveError → Dir → Dir
unfolding write_once load_deployment
apply_write id (failure_noted e) fault d =
    let written = write_once id (failure_noted e) fault d in
    elim (load_deployment id d) [ inl r ↦ written | inr e ↦ d ]
apply_write id w fault d = write_once id w fault d

-- The writes of a run, each with the system call that fails, if any. Whether the run stops at a write
-- that failed is the step's: it does but for `instance_created` and `agent_paired`.
unfoldable pub write_all : Text → List (RecordWrite × Option SaveError) → Dir → Dir
unfolding apply_write
write_all id [] d = d
write_all id ((w, fault) ∷ ws) d = write_all id ws (apply_write id w fault d)
