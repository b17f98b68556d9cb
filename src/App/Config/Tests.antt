-- ===== src/App/Config/Tests.antt =====
-- Concrete command lines and files, and instances of the theorems about the settings.
use nuzur_cli.Base.{◌≡◌, refl, inl, false, [], ◌∷◌, none, some, ◌||◌, if◌then◌else◌}
use nuzur_cli.Text.{codes, equal, trim_func, is_space, to_lower}
use nuzur_cli.App.Config.{DeployConfig, DeploySettings, Flags, Codegen}
use nuzur_cli.App.Config.FlagOnly.{empty_config}
use nuzur_cli.App.Config.Printed.{
  to_deploy_config, deploy_lock, lock_dir, lock_in, without_machine_local,
}
use nuzur_cli.App.Config.Resolve.{
  merge_settings, resolve_deploy_settings, overlay, set_key, check_settings, check_auth,
  normalize_db_engine, validate_auth_value, str_setting, bool_setting, bool_ptr_setting,
  int_setting, db_postgres,
}
use nuzur_cli.App.Config.RoundTrip.{no_flags, of_config, to_deploy_config-resolve}

-- `--db PostgreSQL --allow-destructive`
abbrev some_flags : Flags
some_flags = record {
  is_set = λ f. equal f (codes "db") || equal f (codes "allow-destructive");
  string = λ f. if equal f (codes "db") then codes "PostgreSQL" else [];
  bool = λ f. equal f (codes "allow-destructive");
  int = λ _. 0;
}

abbrev file : DeployConfig
file = record empty_config {
  host = some (codes "10.0.0.1");
  connection = some (codes "c-1");
  db_dsn = some (codes "secret");
  codegen = (codes "api", codes "rest") ∷ [];
}

abbrev generator : Codegen
generator = (codes "api", codes "grpc") ∷ []

abbrev resolved : DeploySettings
unfolding merge_settings str_setting bool_setting bool_ptr_setting int_setting equal
resolved = record (merge_settings some_flags file generator) { db = db_postgres }

resolves : resolve_deploy_settings some_flags (inl file) (some (inl generator)) ≡ inl resolved
unfolding resolve_deploy_settings merge_settings str_setting bool_setting bool_ptr_setting
    int_setting equal overlay set_key check_settings check_auth normalize_db_engine
    validate_auth_value trim_func is_space to_lower resolved
resolves = refl

to_deploy_config-resolve_example :
    resolve_deploy_settings no_flags (inl (to_deploy_config resolved)) none
    ≡ inl (of_config resolved)
unfolding resolved merge_settings str_setting int_setting equal
to_deploy_config-resolve_example =
    to_deploy_config-resolve some_flags (inl file) (some (inl generator)) resolved resolves refl
      refl refl refl

abbrev lock : DeployConfig
unfolding without_machine_local to_deploy_config
lock = without_machine_local (to_deploy_config resolved)

locks : deploy_lock false (codes "/app") [] resolved ≡ some lock
unfolding deploy_lock lock_dir lock_in without_machine_local to_deploy_config resolved
    merge_settings str_setting equal lock
locks = refl

-- A connection string without a team connection leaves no lock.
no_lock : deploy_lock false (codes "/app") [] (record resolved { connection = [] }) ≡ none
unfolding deploy_lock lock_dir lock_in resolved merge_settings str_setting equal
no_lock = refl
