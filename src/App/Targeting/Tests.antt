-- ===== src/App/Targeting/Tests.antt =====
-- Concrete records, and instances of the theorems about the choice of a server.
use nuzur_cli.Base.{◌≡◌, refl, true, false, List, [], ◌∷◌, ◌++◌, some, inl, Bool}
use nuzur_cli.Deploy.{
  Deployment, blank, provider_digital_ocean, creates_infrastructure, uses_given_host,
}
use nuzur_cli.Deploy.Store.{has_suffix}
use nuzur_cli.Text.{Text, codes, equal, trim_func, is_space, index_any, to_lower}
use nuzur_cli.App.Targeting.{
  pick_managed_box, pick_from, newer, last_run_fact, run_fact, died_after, end_sentence, first_line,
  plan_identifier, first_non_empty, sanitize_db_name, map_name, Bool,
}
use nuzur_cli.App.Targeting.Box.{
  BoxDecisionInput, decide_deploy_box, decide_managed, box_reuse_recorded,
}
use nuzur_cli.App.Targeting.Decided.{Decided, decide_deploy_box-Decided}
use nuzur_cli.App.Config.{DeploySettings}
use nuzur_cli.App.Config.FlagOnly.{empty_config}
use nuzur_cli.App.Config.RoundTrip.{no_flags}
use nuzur_cli.App.Config.Resolve.{
  merge_settings, str_setting, bool_setting, bool_ptr_setting, int_setting,
}
use nuzur_cli.Text.Decimal.{show}
use nuzur_cli.App.Targeting.Adopted.{
  apply_deployment_selector-chosen, targets, chosen_targets, is_unreachable, chosen_port,
}
use nuzur_cli.App.Targeting.Selector.{
  apply_deployment_selector, adopt_all, adopt, adopt_port, adoptions, check_reach,
  image_repo_from_ref, before_digest, before_tag, last_index, has_char,
}

abbrev on_box : Text → Text → Deployment
on_box id host = record blank {
  id = id;
  provider = provider_digital_ocean;
  host = host;
  identifier = codes "shop";
  project_uuid = codes "p-1";
}

abbrev deployments : List Deployment
deployments =
    record (on_box (codes "old") (codes "10.0.0.1")) { created_at = 1 }
    ∷ record (on_box (codes "new") (codes "10.0.0.2")) {
      created_at = 5;
      last_completed_step = codes "box_recorded";
      last_error = codes "no route\nto host";
    }
    ∷ record (on_box (codes "other") (codes "10.0.0.3")) {
      created_at = 9;
      project_uuid = codes "p-2";
    }
    ∷ []

abbrev re_deploy : BoxDecisionInput
re_deploy = record {
  provider = provider_digital_ocean;
  host_flag = [];
  new_vm = false;
  identifier = codes "shop";
  project_uuid = codes "p-1";
  deployments = deployments;
}

abbrev in_quotes : Text → Text
in_quotes s = b'"' ∷ (s ++ codes "\"")

reuses_the_newest : (decide_deploy_box in_quotes re_deploy).action ≡ box_reuse_recorded
unfolding decide_deploy_box decide_managed pick_managed_box pick_from newer equal uses_given_host
    creates_infrastructure trim_func is_space
reuses_the_newest = refl

says_how_it_ended :
    last_run_fact (pick_managed_box deployments (codes "p-1") (codes "shop"))
    ≡ codes "The last run of this deployment died after 'box_recorded': no route …"
unfolding last_run_fact run_fact died_after end_sentence first_line pick_managed_box pick_from newer
    equal creates_infrastructure trim_func is_space index_any has_suffix
says_how_it_ended = refl

names_the_project : plan_identifier [] [] (codes "My Shop") ≡ codes "my_shop"
unfolding plan_identifier first_non_empty sanitize_db_name map_name to_lower
names_the_project = refl

decide_deploy_box-Decided_example : Decided re_deploy (decide_deploy_box in_quotes re_deploy)
decide_deploy_box-Decided_example = decide_deploy_box-Decided in_quotes re_deploy

abbrev shop : Deployment
shop = record (on_box (codes "new") (codes "10.0.0.2")) {
  external_db = true;
  team_conn_uuid = codes "c-1";
  image_ref = codes "ghcr.io/acme/shop:v7";
  port = 2222;
}

abbrev host_given : Text → Bool
host_given flag = equal flag (codes "host")

abbrev started : DeploySettings
unfolding merge_settings str_setting bool_setting bool_ptr_setting int_setting
started = record (merge_settings no_flags empty_config []) { host = codes "10.9.9.9" }

abbrev taken : DeploySettings × List Text
unfolding adopt_port adopt_all adoptions adopt equal image_repo_from_ref before_digest before_tag
    last_index has_char index_any trim_func is_space show
taken = adopt_port host_given shop (adopt_all host_given (adoptions shop) (started, []))

takes : apply_deployment_selector started (some shop) host_given ≡ inl taken
unfolding apply_deployment_selector check_reach adopt_all adoptions adopt equal trim_func is_space
    taken started merge_settings str_setting image_repo_from_ref before_digest before_tag last_index
    has_char index_any adopt_port
takes = refl

keeps_the_host :
    (taken.0.host ≡ codes "10.9.9.9") × (taken.0.image_repo ≡ codes "ghcr.io/acme/shop")
unfolding taken started adopt_all adopt_port adoptions adopt equal merge_settings str_setting
    trim_func is_space image_repo_from_ref before_digest before_tag last_index has_char index_any
keeps_the_host = (refl, refl)

apply_deployment_selector-chosen_example :
    ((targets taken.0 ≡ chosen_targets host_given shop started)
      × (taken.0.port ≡ chosen_port host_given started.port shop.port))
    × (is_unreachable shop taken.0 ≡ false)
apply_deployment_selector-chosen_example =
    apply_deployment_selector-chosen started shop host_given taken takes
