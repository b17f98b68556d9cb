-- ===== src/App/Config/Resolve.antt =====
-- `resolveDeploySettings` of app/deploy_config.go: how the flags, the file and the defaults make the
-- settings, and the checks of the engine and of the authentication.
use nuzur_cli.Base.{
  ℕ, Bool, true, false, ◌||◌, [], ◌∷◌, Option, none, some, if◌then◌else◌, inl, inr, ◌⊎◌, is_nil,
}
use nuzur_cli.Deploy.{provider_ssh}
use nuzur_cli.Text.{Text, codes, equal, trim_space, to_lower}
use nuzur_cli.App.Config.{Codegen, DeployConfig, DeploySettings, Flags}

-- The flag if it was set, else the file's value, else the default.
abbrev pub setting {ℓ} : {A : Type ℓ} → Bool → A → Option A → A → A
setting true flag file def = flag
setting false flag (some v) def = v
setting false flag none def = def

unfoldable pub str_setting : Flags → Text → Option Text → Text → Text
str_setting flags flag file def = setting (flags.is_set flag) (flags.string flag) file def

unfoldable pub bool_setting : Flags → Text → Option Bool → Bool
bool_setting flags flag file = setting (flags.is_set flag) (flags.bool flag) file false

unfoldable pub bool_ptr_setting : Flags → Text → Option Bool → Option Bool
bool_ptr_setting flags flag file = if flags.is_set flag then some (flags.bool flag) else file

unfoldable pub int_setting : Flags → Text → Option ℕ → ℕ → ℕ
int_setting flags flag file def = setting (flags.is_set flag) (flags.int flag) file def

abbrev pub is_some {ℓ} : {A : Type ℓ} → Option A → Bool
is_some none = false
is_some (some a) = true

abbrev pub db_mysql : Text
db_mysql = codes "mysql"

abbrev pub db_postgres : Text
db_postgres = codes "postgres"

abbrev pub web_prod_url : Text
web_prod_url = codes "https://app.nuzur.com"

pub data ConfigError : Type 0 where
  reading_config gen_config unknown_engine unknown_auth : ConfigError

unfoldable pub normalize_db_engine : Text → Text ⊎ ConfigError
unfolding equal
normalize_db_engine v =
    let name = to_lower (trim_space v) in
    if is_nil name
    then inl db_mysql
    else if equal name (codes "mysql")
    then inl db_mysql
    else if equal name (codes "postgres") || equal name (codes "postgresql")
    then inl db_postgres
    else inr unknown_engine

unfoldable pub validate_auth_value : Text → Bool
unfolding equal
validate_auth_value v =
    let value = trim_space v in
    is_nil value
    || equal value (codes "disabled")
    || equal value (codes "jwt")
    || equal value (codes "keycloak")

-- `m[k] = v`
unfoldable pub set_key : Text → Text → Codegen → Codegen
unfolding equal
set_key k v [] = (k, v) ∷ []
set_key k v ((n, w) ∷ m) =
    let rest = set_key k v m in if equal n k then (n, v) ∷ m else (n, w) ∷ rest

unfoldable pub overlay : Codegen → Codegen → Codegen
unfolding set_key
overlay base [] = base
overlay base ((k, v) ∷ top) = overlay (set_key k v base) top

-- The settings before the checks.
unfoldable pub merge_settings : Flags → DeployConfig → Codegen → DeploySettings
unfolding str_setting bool_setting bool_ptr_setting int_setting
merge_settings flags cfg codegen = record {
  provider = str_setting flags (codes "provider") cfg.provider provider_ssh;
  host = str_setting flags (codes "host") cfg.host [];
  region = str_setting flags (codes "region") cfg.region [];
  size = str_setting flags (codes "size") cfg.size [];
  image = str_setting flags (codes "image") cfg.image [];
  ssh_key_name = str_setting flags (codes "ssh-key-name") cfg.ssh_key_name [];
  user = str_setting flags (codes "user") cfg.user (codes "root");
  ssh_key = str_setting flags (codes "ssh-key") cfg.ssh_key [];
  port = int_setting flags (codes "port") cfg.port 22;
  domain = str_setting flags (codes "domain") cfg.domain [];
  project = str_setting flags (codes "project") cfg.project [];
  version = str_setting flags (codes "version") cfg.version [];
  identifier = str_setting flags (codes "identifier") cfg.identifier [];
  db_only = bool_setting flags (codes "db-only") cfg.db_only;
  db = str_setting flags (codes "db") cfg.db db_mysql;
  db_stated = flags.is_set (codes "db") || is_some cfg.db;
  db_schema = str_setting flags (codes "db-schema") cfg.db_schema [];
  db_dsn = str_setting flags (codes "db-dsn") cfg.db_dsn [];
  connection = str_setting flags (codes "connection") cfg.connection [];
  save_connection = bool_setting flags (codes "save-connection") cfg.save_connection;
  no_save_connection = bool_setting flags (codes "no-save-connection") cfg.no_save_connection;
  storage_enabled = bool_setting flags (codes "storage-enabled") cfg.storage_enabled;
  storage = str_setting flags (codes "storage") cfg.storage [];
  s3_bucket = str_setting flags (codes "s3-bucket") none [];
  s3_region = str_setting flags (codes "s3-region") none [];
  s3_access_key = str_setting flags (codes "s3-access-key") none [];
  s3_secret = str_setting flags (codes "s3-secret") none [];
  s3_endpoint = str_setting flags (codes "s3-endpoint") none [];
  api = str_setting flags (codes "api") cfg.api [];
  auth = str_setting flags (codes "auth") cfg.auth [];
  custom = bool_ptr_setting flags (codes "custom") cfg.custom;
  source_dir = str_setting flags (codes "source-dir") cfg.source_dir [];
  cli_install_cmd = str_setting flags (codes "cli-install-cmd") cfg.cli_install_cmd [];
  sudo = bool_setting flags (codes "sudo") cfg.sudo;
  web_url = str_setting flags (codes "web-url") cfg.web_url web_prod_url;
  allow_destructive = bool_setting flags (codes "allow-destructive") none;
  new_vm = bool_setting flags (codes "new-vm") none;
  namespace = str_setting flags (codes "namespace") cfg.namespace [];
  release = str_setting flags (codes "release") cfg.release [];
  helm_cmd = str_setting flags (codes "helm-cmd") cfg.helm_cmd [];
  kubectl_cmd = str_setting flags (codes "kubectl-cmd") cfg.kubectl_cmd [];
  image_repo = str_setting flags (codes "image-repo") cfg.image_repo [];
  image_tag = str_setting flags (codes "image-tag") cfg.image_tag [];
  auth_domain = str_setting flags (codes "auth-domain") cfg.auth_domain [];
  grpc_domain = str_setting flags (codes "grpc-domain") cfg.grpc_domain [];
  chart_values = str_setting flags (codes "chart-values") cfg.chart_values [];
  write_config = str_setting flags (codes "write-config") none [];
  skip_schema = bool_setting flags (codes "skip-schema") none;
  pin_digest = bool_setting flags (codes "pin-digest") none;
  no_commit = bool_setting flags (codes "no-commit") none;
  no_wait = bool_setting flags (codes "no-wait") none;
  release_only = bool_setting flags (codes "release-only") none;
  codegen = codegen;
}

unfoldable pub check_auth : DeploySettings → DeploySettings ⊎ ConfigError
unfolding validate_auth_value
check_auth s = if validate_auth_value s.auth then inl s else inr unknown_auth

unfoldable pub check_settings : DeploySettings → Text ⊎ ConfigError → DeploySettings ⊎ ConfigError
unfolding check_auth
check_settings s (inl engine) = check_auth (record s { db = engine })
check_settings s (inr e) = inr e

-- The file of --gen-config: none if the flag is empty, else its keys or the error of reading it.
unfoldable pub resolve_deploy_settings :
    Flags
    → DeployConfig ⊎ ConfigError
    → Option (Codegen ⊎ ConfigError)
    → DeploySettings ⊎ ConfigError
unfolding merge_settings overlay check_settings normalize_db_engine
resolve_deploy_settings flags (inr e) gen = inr e
resolve_deploy_settings flags (inl cfg) (some (inr e)) = inr e
resolve_deploy_settings flags (inl cfg) none =
    let s = merge_settings flags cfg cfg.codegen in check_settings s (normalize_db_engine s.db)
resolve_deploy_settings flags (inl cfg) (some (inl keys)) =
    let s = merge_settings flags cfg (overlay cfg.codegen keys) in
    check_settings s (normalize_db_engine s.db)
