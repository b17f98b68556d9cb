-- ===== src/App/Config/Printed.antt =====
-- `toDeployConfig` of app/deploy_config.go, which --print-config writes, and the lock file of
-- app/deploy_lockfile.go that a deploy leaves in the app's directory.
use nuzur_cli.Base.{
  ℕ, zero, suc, Bool, true, false, not, ◌&&◌, [], ◌∷◌, Option, none, some, if◌then◌else◌, is_nil,
}
use nuzur_cli.Text.{Text}
use nuzur_cli.App.Config.{DeployConfig, DeploySettings}

abbrev pub text_or_none : Text → Option Text
text_or_none [] = none
text_or_none (c ∷ s) = some (c ∷ s)

abbrev pub true_or_none : Bool → Option Bool
true_or_none false = none
true_or_none true = some true

abbrev pub number_or_none : ℕ → Option ℕ
number_or_none zero = none
number_or_none (suc n) = some (suc n)

unfoldable pub to_deploy_config : DeploySettings → DeployConfig
to_deploy_config s = record {
  provider = text_or_none s.provider;
  host = text_or_none s.host;
  region = text_or_none s.region;
  size = text_or_none s.size;
  image = text_or_none s.image;
  ssh_key_name = text_or_none s.ssh_key_name;
  user = text_or_none s.user;
  ssh_key = text_or_none s.ssh_key;
  port = number_or_none s.port;
  domain = text_or_none s.domain;
  project = text_or_none s.project;
  version = text_or_none s.version;
  identifier = text_or_none s.identifier;
  db_only = true_or_none s.db_only;
  db = text_or_none s.db;
  db_schema = text_or_none s.db_schema;
  db_dsn = text_or_none s.db_dsn;
  connection = text_or_none s.connection;
  save_connection = true_or_none s.save_connection;
  no_save_connection = true_or_none s.no_save_connection;
  storage_enabled = true_or_none s.storage_enabled;
  storage = text_or_none s.storage;
  api = text_or_none s.api;
  auth = text_or_none s.auth;
  custom = s.custom;
  source_dir = text_or_none s.source_dir;
  cli_install_cmd = text_or_none s.cli_install_cmd;
  sudo = true_or_none s.sudo;
  web_url = text_or_none s.web_url;
  namespace = text_or_none s.namespace;
  release = text_or_none s.release;
  helm_cmd = text_or_none s.helm_cmd;
  kubectl_cmd = text_or_none s.kubectl_cmd;
  image_repo = text_or_none s.image_repo;
  image_tag = text_or_none s.image_tag;
  auth_domain = text_or_none s.auth_domain;
  grpc_domain = text_or_none s.grpc_domain;
  chart_values = text_or_none s.chart_values;
  codegen = s.codegen;
}

unfoldable pub without_machine_local : DeployConfig → DeployConfig
without_machine_local cfg = record cfg {
  db_dsn = none;
  ssh_key = none;
  source_dir = none;
  web_url = none;
}

-- `deployLockPath`, as far as whether there is a directory for the file.
unfoldable pub lock_dir : Bool → Text → Text → Option Text
lock_dir db_only [] [] = none
lock_dir db_only [] (c ∷ source_root) = if db_only then none else some (c ∷ source_root)
lock_dir db_only (c ∷ app_dir) source_root = if db_only then none else some (c ∷ app_dir)

unfoldable pub lock_in : Option Text → DeploySettings → Option DeployConfig
unfolding to_deploy_config without_machine_local
lock_in none s = none
lock_in (some dir) s =
    if not (is_nil s.db_dsn) && is_nil s.connection
    then none
    else some (without_machine_local (to_deploy_config s))

-- The configuration that `stepWriteDeployLock` writes; none where it writes no file.
unfoldable pub deploy_lock : Bool → Text → Text → DeploySettings → Option DeployConfig
unfolding lock_dir lock_in
deploy_lock db_only app_dir source_root s = lock_in (lock_dir db_only app_dir source_root) s
