-- ===== src/App/Pipeline/Tests.antt =====
-- Concrete runs of the steps of a deploy, and instances of the theorems about them.
use nuzur_cli.Base.{
  ◌≡◌, refl, ◌⊎◌, true, false, [], ◌∷◌, All, Any, length, ◌≤◌, inl, none, some, List, Option,
}
use nuzur_cli.Deploy.{
  step_finalized, provider_digital_ocean, provider_k8s, creates_infrastructure, provider_ssh,
}
use nuzur_cli.Text.{codes, equal, Text}
use nuzur_cli.App.Pipeline.{
  DeployState, EffectLevel, is_k8s, effects, has, max_level, level, show_effects, eff_box,
  eff_record, eff_none, set_at, bit_at, level_name, List,
}
use nuzur_cli.App.Pipeline.Effects.{max_level-greatest}
use nuzur_cli.App.Pipeline.Recorded.{deploy_steps-Reserved, Reserved}
use nuzur_cli.Deploy.{Deployment, blank}
use nuzur_cli.Deploy.Store.{Dir, holds, load_deployment, parsed, find, writing, SaveError}
use nuzur_cli.App.Pipeline.Records.{
  RunFacts, RecordWrite, write_all, box_recorded, agent_paired, finalized, failure_noted, released,
}
use nuzur_cli.App.Pipeline.Records.Carried.{Run}
use nuzur_cli.App.Pipeline.Records.Untouched.{LoadsLike, write_all-LoadsLike}
use nuzur_cli.App.Pipeline.Routes.{deploy_steps-OnRoute, OnRoute}
use nuzur_cli.App.Pipeline.Run.{Perform, run_steps, steps_failed}
use nuzur_cli.App.Pipeline.Steps.{
  deploy_steps, opening_steps, k8s_steps, box_steps, closing_steps, step,
}
use nuzur_cli.App.Pipeline.Stops.{deploy_steps-stops, FailsLast}

abbrev settings : Text → DeployState
settings p = record {
  skip_schema = false;
  release_only = false;
  no_commit = false;
  no_wait = false;
  db_only = false;
  from_connection = false;
  reuse_box = false;
  provider = p;
  instance_id = codes "i-1";
}

-- Every step works, and the bootstrap fails.
abbrev works : Perform
works n st = (st, false)

abbrev bootstrap_fails : Perform
bootstrap_fails n st = (st, equal n (codes "bootstrap"))

abbrev first_run : DeployState
first_run = settings provider_digital_ocean

runs_on_a_server : length (run_steps works deploy_steps first_run) ≡ 22
unfolding run_steps deploy_steps opening_steps k8s_steps box_steps closing_steps step equal is_k8s
    creates_infrastructure
runs_on_a_server = refl

runs_on_a_cluster : length (run_steps works deploy_steps (settings provider_k8s)) ≡ 20
unfolding run_steps deploy_steps opening_steps k8s_steps box_steps closing_steps step equal is_k8s
    creates_infrastructure
runs_on_a_cluster = refl

shows_both : show_effects (effects (eff_box ∷ eff_record ∷ [])) ≡ codes "record|box"
unfolding show_effects effects has set_at bit_at level level_name
shows_both = refl

deploy_steps-Reserved_example : Reserved false (run_steps works deploy_steps first_run)
deploy_steps-Reserved_example = deploy_steps-Reserved works first_run

deploy_steps-OnRoute_example :
    All (λ e. OnRoute e.step e.state) (run_steps works deploy_steps (settings provider_k8s))
deploy_steps-OnRoute_example = deploy_steps-OnRoute works (settings provider_k8s)

deploy_steps-stops_example :
    FailsLast (run_steps bootstrap_fails deploy_steps first_run)
    × ((steps_failed (run_steps bootstrap_fails deploy_steps first_run) ≡ true)
        ⊎ Any
            (λ e. e.step.checkpoint ≡ step_finalized)
            (run_steps bootstrap_fails deploy_steps first_run))
deploy_steps-stops_example = deploy_steps-stops bootstrap_fails first_run

max_level-greatest_example :
    ((l : EffectLevel) → has 20 l ≡ true → level l ≤ level (max_level 20))
    × ((max_level 20 ≡ eff_none) ⊎ (has 20 (max_level 20) ≡ true))
max_level-greatest_example = max_level-greatest 20

-- The record of an earlier deploy that created its server.
abbrev created : Deployment
created = record blank {
  id = codes "a";
  provider = provider_digital_ocean;
  provider_instance_id = codes "i-1";
  host = codes "10.0.0.1";
  api_url = codes "http://10.0.0.1";
  created_at = 3;
}

abbrev facts : RunFacts
facts = record {
  now = 50;
  provider = provider_ssh;
  resource_name = [];
  region = [];
  identifier = codes "shop";
  project_uuid = codes "p-1";
  project_version_uuid = codes "v-1";
  db_engine = codes "mysql";
  external_db = false;
  workspace_dir = codes "/src/shop";
  prov_instance_id = [];
  prov_region = [];
  target_host = codes "10.0.0.1";
  target_user = codes "root";
  target_port = 22;
  conn_uuid = codes "c-1";
  conn_flag = [];
  domain = [];
  auth_domain = [];
  grpc_domain = [];
  prior = some created;
  reuse_agent_uuid = [];
  reuse_box = false;
  box_record = none;
  agent_uuid = codes "u-1";
  public_url = codes "http://10.0.0.1";
  data_manager_url = [];
  namespace = codes "shop";
  release_name = codes "shop";
  chart_version = codes "0.1.1";
  image_ref = codes "acme/shop:v2";
}

abbrev records : Dir
records = (codes "a.json", holds created) ∷ []

-- A server is created anew, and the next run is a deploy to its address.
abbrev reruns : List Run
reruns =
    record {
      instance_ref = some (record { instance_id = codes "i-2"; region = []; host = [] });
      facts = record facts { provider = provider_digital_ocean; prov_instance_id = codes "i-2" };
      later = agent_paired facts ∷ finalized facts ∷ [];
    }
    ∷ record { instance_ref = none; facts = facts; later = failure_noted (codes "no agent") ∷ [] }
    ∷ []

loads_created : load_deployment (codes "a") records ≡ inl created
unfolding load_deployment parsed find equal
loads_created = refl

abbrev some_writes : List (RecordWrite × Option SaveError)
some_writes =
    (box_recorded facts, none)
    ∷ (agent_paired facts, some writing)
    ∷ (released facts, none)
    ∷ (failure_noted (codes "no url"), none)
    ∷ []

write_all-LoadsLike_example :
    LoadsLike (codes "a") created some_writes (write_all (codes "a") some_writes records)
write_all-LoadsLike_example =
    write_all-LoadsLike (codes "a") some_writes records created loads_created
