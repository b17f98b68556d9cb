-- ===== src/Deploy.antt =====
-- deploy/deploy.go and the record of a deployment in deploy/state.go: the providers, the fields of a
-- record and the checkpoints that tell how far the last run got. A moment is the number of
-- nanoseconds to it, so it has no zone.
pub mod Chart
pub mod Store
mod Tests
use nuzur_cli.Base.{ℕ, Bool, false, not, ◌||◌, [], is_nil, if◌then◌else◌}
use nuzur_cli.Text.{Text, codes, equal}

-- The type `Provider`, a string.
abbrev pub Provider : Type 0
Provider = Text

abbrev pub provider_ssh : Provider
provider_ssh = codes "ssh"

abbrev pub provider_k8s : Provider
provider_k8s = codes "k8s"

abbrev pub provider_digital_ocean : Provider
provider_digital_ocean = codes "digitalocean"

unfoldable pub creates_infrastructure : Provider → Bool
unfolding equal
creates_infrastructure p = not (equal p provider_ssh || equal p provider_k8s || is_nil p)

unfoldable pub uses_given_host : Provider → Bool
unfolding creates_infrastructure
uses_given_host p = not (creates_infrastructure p)

pub record Deployment : Type 0 where
  pub id : Text
  pub provider : Provider
  pub provider_instance_id : Text
  pub provider_resource_name : Text
  pub provisioning : Bool
  pub region : Text
  pub namespace : Text
  pub release_name : Text
  pub chart_version : Text
  pub image_ref : Text
  pub host : Text
  pub user : Text
  pub port : ℕ
  pub identifier : Text
  pub project_uuid : Text
  pub project_version_uuid : Text
  pub local_agent_uuid : Text
  pub conn_uuid : Text
  pub team_conn_uuid : Text
  pub db_engine : Text
  pub external_db : Bool
  pub workspace_dir : Text
  pub domain : Text
  pub auth_domain : Text
  pub grpc_domain : Text
  pub api_url : Text
  pub public_url : Text
  pub data_manager_url : Text
  pub created_at : ℕ
  pub last_completed_step : Text
  pub last_error : Text

-- `&Deployment{}`
abbrev pub blank : Deployment
blank = record {
  id = [];
  provider = [];
  provider_instance_id = [];
  provider_resource_name = [];
  provisioning = false;
  region = [];
  namespace = [];
  release_name = [];
  chart_version = [];
  image_ref = [];
  host = [];
  user = [];
  port = 0;
  identifier = [];
  project_uuid = [];
  project_version_uuid = [];
  local_agent_uuid = [];
  conn_uuid = [];
  team_conn_uuid = [];
  db_engine = [];
  external_db = false;
  workspace_dir = [];
  domain = [];
  auth_domain = [];
  grpc_domain = [];
  api_url = [];
  public_url = [];
  data_manager_url = [];
  created_at = 0;
  last_completed_step = [];
  last_error = [];
}

abbrev pub step_pending_recorded : Text
step_pending_recorded = codes "pending_recorded"

abbrev pub step_instance_created : Text
step_instance_created = codes "instance_created"

abbrev pub step_box_recorded : Text
step_box_recorded = codes "box_recorded"

abbrev pub step_agent_paired : Text
step_agent_paired = codes "agent_paired"

abbrev pub step_released : Text
step_released = codes "released"

abbrev pub step_finalized : Text
step_finalized = codes "finalized"

-- The map `stepRanks`; a step that it does not hold has rank 0.
unfoldable pub step_rank : Text → ℕ
unfolding equal
step_rank step =
    if equal step step_pending_recorded
    then 1
    else if equal step step_instance_created
    then 2
    else if equal step step_box_recorded
    then 3
    else if equal step step_agent_paired
    then 4
    else if equal step step_released
    then 5
    else if equal step step_finalized
    then 6
    else 0
