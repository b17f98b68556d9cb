-- ===== src/App/Config/RoundTrip.antt =====
-- The settings that the configuration printed from settings gives when it is read again.
use nuzur_cli.Base.{
  ℕ, zero, suc, ◌≡◌, refl, sym, ap, ◌∙◌, ◌⊎◌, inl, inr, Bool, true, false, [], ◌∷◌, Option, none,
  some, is_nil, arith, Bool-cases, ◌==◌, subst, ◌||◌, if◌then◌else◌,
}
use nuzur_cli.Deploy.{provider_ssh}
use nuzur_cli.Text.{Text, codes, equal, trim_space, to_lower, trim_func, is_space}
use nuzur_cli.App.Config.{Codegen, DeployConfig, DeploySettings, Flags}
use nuzur_cli.App.Config.Printed.{to_deploy_config, text_or_none, true_or_none, number_or_none}
use nuzur_cli.App.Config.Resolve.{
  setting, str_setting, bool_setting, bool_ptr_setting, int_setting, is_some, db_mysql, db_postgres,
  web_prod_url, ConfigError, normalize_db_engine, validate_auth_value, merge_settings, check_auth,
  check_settings, resolve_deploy_settings, overlay, unknown_engine, unknown_auth,
}

-- A command line without flags.
abbrev pub no_flags : Flags
no_flags = record { is_set = λ _. false; string = λ _. []; bool = λ _. false; int = λ _. 0 }

-- The settings that a printed configuration gives: the engine counts as stated, since it is printed, were it the
-- default; and nothing is set that only flags set.
abbrev pub of_config : DeploySettings → DeploySettings
of_config s = record s {
  db_stated = true;
  s3_bucket = [];
  s3_region = [];
  s3_access_key = [];
  s3_secret = [];
  s3_endpoint = [];
  allow_destructive = false;
  new_vm = false;
  write_config = [];
  skip_schema = false;
  pin_digest = false;
  no_commit = false;
  no_wait = false;
  release_only = false;
}

text_kept : (v : Text) → setting false [] (text_or_none v) [] ≡ v
text_kept [] = refl
text_kept (c ∷ s) = refl

text_given : (def v : Text) → is_nil v ≡ false → setting false [] (text_or_none v) def ≡ v
text_given def [] h = ground (arith, h)
text_given def (c ∷ s) h = refl

text_stated : (v : Text) → is_nil v ≡ false → is_some (text_or_none v) ≡ true
text_stated [] h = ground (arith, h)
text_stated (c ∷ s) h = refl

true_kept : (v : Bool) → setting false false (true_or_none v) false ≡ v
true_kept true = refl
true_kept false = refl

number_given : (v : ℕ) → (v == 0) ≡ false → setting false 0 (number_or_none v) 22 ≡ v
number_given zero h = ground (arith, h)
number_given (suc n) h = refl

merge_settings-of_config :
    (s : DeploySettings)
    → is_nil s.provider ≡ false
    → is_nil s.user ≡ false
    → is_nil s.web_url ≡ false
    → (s.port == 0) ≡ false
    → is_nil s.db ≡ false
    → merge_settings no_flags (to_deploy_config s) s.codegen ≡ of_config s
unfolding merge_settings to_deploy_config str_setting bool_setting bool_ptr_setting int_setting
merge_settings-of_config s provider user url port engine = λ i. record {
  provider = text_given provider_ssh s.provider provider i;
  host = text_kept s.host i;
  region = text_kept s.region i;
  size = text_kept s.size i;
  image = text_kept s.image i;
  ssh_key_name = text_kept s.ssh_key_name i;
  user = text_given (codes "root") s.user user i;
  ssh_key = text_kept s.ssh_key i;
  port = number_given s.port port i;
  domain = text_kept s.domain i;
  project = text_kept s.project i;
  version = text_kept s.version i;
  identifier = text_kept s.identifier i;
  db_only = true_kept s.db_only i;
  db = text_given db_mysql s.db engine i;
  db_stated = text_stated s.db engine i;
  db_schema = text_kept s.db_schema i;
  db_dsn = text_kept s.db_dsn i;
  connection = text_kept s.connection i;
  save_connection = true_kept s.save_connection i;
  no_save_connection = true_kept s.no_save_connection i;
  storage_enabled = true_kept s.storage_enabled i;
  storage = text_kept s.storage i;
  s3_bucket = [];
  s3_region = [];
  s3_access_key = [];
  s3_secret = [];
  s3_endpoint = [];
  api = text_kept s.api i;
  auth = text_kept s.auth i;
  custom = s.custom;
  source_dir = text_kept s.source_dir i;
  cli_install_cmd = text_kept s.cli_install_cmd i;
  sudo = true_kept s.sudo i;
  web_url = text_given web_prod_url s.web_url url i;
  allow_destructive = false;
  new_vm = false;
  namespace = text_kept s.namespace i;
  release = text_kept s.release i;
  helm_cmd = text_kept s.helm_cmd i;
  kubectl_cmd = text_kept s.kubectl_cmd i;
  image_repo = text_kept s.image_repo i;
  image_tag = text_kept s.image_tag i;
  auth_domain = text_kept s.auth_domain i;
  grpc_domain = text_kept s.grpc_domain i;
  chart_values = text_kept s.chart_values i;
  write_config = [];
  skip_schema = false;
  pin_digest = false;
  no_commit = false;
  no_wait = false;
  release_only = false;
  codegen = s.codegen;
}

inl_injective : {e x : Text} → Path (Text ⊎ ConfigError) (inl x) (inl e) → e ≡ x
inl_injective {e} {x} h = sym (ap (λ r. elim r [ inl a ↦ a | inr _ ↦ x ]) h)

engine_chosen :
    {e x y : Text} (a b c : Bool)
    → Path
        (Text ⊎ ConfigError)
        (if a then inl x else if b then inl x else if c then inl y else inr unknown_engine)
        (inl e)
    → (e ≡ x) ⊎ (e ≡ y)
engine_chosen true b c h = inl (inl_injective h)
engine_chosen false true c h = inl (inl_injective h)
engine_chosen false false true h = inr (inl_injective h)
engine_chosen false false false h = ground (arith, h)

-- The engine is one that the check leaves as it is.
normalize_db_engine-known :
    (v e : Text) → normalize_db_engine v ≡ inl e → (e ≡ db_mysql) ⊎ (e ≡ db_postgres)
unfolding normalize_db_engine
normalize_db_engine-known v e h =
    let name = to_lower (trim_space v) in
    engine_chosen (is_nil name) (equal name (codes "mysql"))
      (equal name (codes "postgres") || equal name (codes "postgresql")) h

known-normalize :
    (e : Text)
    → (e ≡ db_mysql) ⊎ (e ≡ db_postgres)
    → (normalize_db_engine e ≡ inl e) × (is_nil e ≡ false)
unfolding normalize_db_engine trim_func is_space to_lower equal
known-normalize e (inl h) =
    subst (λ x. (normalize_db_engine x ≡ inl x) × (is_nil x ≡ false)) (sym h) (refl, refl)
known-normalize e (inr h) =
    subst (λ x. (normalize_db_engine x ≡ inl x) × (is_nil x ≡ false)) (sym h) (refl, refl)

settings_of : DeploySettings → DeploySettings ⊎ ConfigError → DeploySettings
settings_of def (inl s) = s
settings_of def (inr e) = def

check_auth-inl :
    (m s : DeploySettings) → check_auth m ≡ inl s → (validate_auth_value s.auth ≡ true) × (m ≡ s)
unfolding check_auth settings_of
check_auth-inl m s h = elim (Bool-cases (validate_auth_value m.auth)) [
  | inl valid ↦
      let same = ap (settings_of m) ((rw valid at h)) in
      (subst (λ x. validate_auth_value x.auth ≡ true) same valid, same)
  | inr invalid ↦ ground (arith, rw invalid at h)
]

check_settings-inl :
    (m s : DeploySettings) (r : Text ⊎ ConfigError)
    → check_settings m r ≡ inl s
    → (validate_auth_value s.auth ≡ true) × (r ≡ inl s.db)
unfolding check_settings
check_settings-inl m s (inl e) h =
    let checked = check_auth-inl (record m { db = e }) s h in
    (checked.0, ap (λ x. inl x.db) checked.1)
check_settings-inl m s (inr e) h = ground (arith, h)

-- Settings that passed the checks pass them again.
resolve-checked :
    (flags : Flags) (file : DeployConfig ⊎ ConfigError) (gen : Option (Codegen ⊎ ConfigError))
    (s : DeploySettings)
    → resolve_deploy_settings flags file gen ≡ inl s
    → (validate_auth_value s.auth ≡ true)
      × ((normalize_db_engine s.db ≡ inl s.db) × (is_nil s.db ≡ false))
unfolding resolve_deploy_settings
resolve-checked flags (inr e) gen s h = ground (arith, h)
resolve-checked flags (inl cfg) (some (inr e)) s h = ground (arith, h)
resolve-checked flags (inl cfg) none s h =
    let m = merge_settings flags cfg cfg.codegen in
    let checked = check_settings-inl m s (normalize_db_engine m.db) h in
    (checked.0, known-normalize s.db (normalize_db_engine-known m.db s.db checked.1))
resolve-checked flags (inl cfg) (some (inl keys)) s h =
    let m = merge_settings flags cfg (overlay cfg.codegen keys) in
    let checked = check_settings-inl m s (normalize_db_engine m.db) h in
    (checked.0, known-normalize s.db (normalize_db_engine-known m.db s.db checked.1))

-- If settings were resolved, and their provider, user and web address are not empty nor their port 0, then the configuration printed from them resolves without any flag to the same settings, but that the engine counts as stated, whether it did or was the default, and that what only flags set is not set.
pub to_deploy_config-resolve :
    (flags : Flags) (file : DeployConfig ⊎ ConfigError) (gen : Option (Codegen ⊎ ConfigError))
    (s : DeploySettings)
    → resolve_deploy_settings flags file gen ≡ inl s
    → is_nil s.provider ≡ false
    → is_nil s.user ≡ false
    → is_nil s.web_url ≡ false
    → (s.port == 0) ≡ false
    → resolve_deploy_settings no_flags (inl (to_deploy_config s)) none ≡ inl (of_config s)
unfolding resolve_deploy_settings check_settings check_auth to_deploy_config
to_deploy_config-resolve flags file gen s h provider user url port =
    let checked = resolve-checked flags file gen s h in
    ap (λ m. check_settings m (normalize_db_engine m.db))
      (merge_settings-of_config s provider user url port checked.1.1)
    ∙ (ap (check_settings (of_config s)) checked.1.0
        ∙ ap (λ b. if b then inl (of_config s) else inr unknown_auth) checked.0)
