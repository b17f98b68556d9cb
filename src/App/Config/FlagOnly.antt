-- ===== src/App/Config/FlagOnly.antt =====
-- The settings that only flags can set, and what the lock file leaves out.
use nuzur_cli.Base.{
  ◌≡◌, refl, sym, ap, ◌∙◌, ◌⊎◌, inl, inr, Bool, true, false, List, [], ◌∷◌, Option, none, some,
  is_nil, arith, Bool-cases, not, ◌&&◌, if◌then◌else◌, subst,
}
use mathlib.Core.Option.{some-injective}
use nuzur_cli.Text.{Text}
use nuzur_cli.App.Config.{Codegen, DeployConfig, DeploySettings, Flags}
use nuzur_cli.App.Config.Printed.{
  to_deploy_config, without_machine_local, lock_dir, deploy_lock, text_or_none, lock_in,
}
use nuzur_cli.App.Config.Resolve.{
  ConfigError, normalize_db_engine, merge_settings, check_auth, check_settings,
  resolve_deploy_settings, overlay, validate_auth_value,
}

-- `&DeployConfig{}`
abbrev pub empty_config : DeployConfig
empty_config = record {
  provider = none;
  host = none;
  region = none;
  size = none;
  image = none;
  ssh_key_name = none;
  user = none;
  ssh_key = none;
  port = none;
  domain = none;
  project = none;
  version = none;
  identifier = none;
  db_only = none;
  db = none;
  db_schema = none;
  db_dsn = none;
  connection = none;
  save_connection = none;
  no_save_connection = none;
  storage_enabled = none;
  storage = none;
  api = none;
  auth = none;
  custom = none;
  source_dir = none;
  cli_install_cmd = none;
  sudo = none;
  web_url = none;
  namespace = none;
  release = none;
  helm_cmd = none;
  kubectl_cmd = none;
  image_repo = none;
  image_tag = none;
  auth_domain = none;
  grpc_domain = none;
  chart_values = none;
  codegen = [];
}

-- The settings whose flags a file has no key for: the texts, and the switches.
abbrev pub flag_texts : DeploySettings → List Text
flag_texts s =
    s.s3_bucket ∷ s.s3_region ∷ s.s3_access_key ∷ s.s3_secret ∷ s.s3_endpoint ∷ s.write_config ∷ []

abbrev pub flag_switches : DeploySettings → List Bool
flag_switches s =
    s.allow_destructive ∷ s.new_vm ∷ s.skip_schema ∷ s.pin_digest ∷ s.no_commit ∷ s.no_wait
    ∷ s.release_only ∷ []

abbrev pub SameFlags : DeploySettings → DeploySettings → Type 0
SameFlags s t = (flag_texts s ≡ flag_texts t) × (flag_switches s ≡ flag_switches t)

check_auth-SameFlags : (m s : DeploySettings) → check_auth m ≡ inl s → SameFlags s m
unfolding check_auth
check_auth-SameFlags m s h = elim (Bool-cases (validate_auth_value m.auth)) [
  | inl valid ↦
      let same = ap (λ r. elim r [ inl x ↦ x | inr _ ↦ m ]) (rw valid at h) in
      (ap flag_texts (sym same), ap flag_switches (sym same))
  | inr invalid ↦ ground (arith, rw invalid at h)
]

check_settings-SameFlags :
    (m s : DeploySettings) (r : Text ⊎ ConfigError) → check_settings m r ≡ inl s → SameFlags s m
unfolding check_settings
check_settings-SameFlags m s (inl e) h = check_auth-SameFlags (record m { db = e }) s h
check_settings-SameFlags m s (inr e) h = ground (arith, h)

merge_settings-SameFlags :
    (flags : Flags) (cfg : DeployConfig) (codegen : Codegen)
    → SameFlags (merge_settings flags cfg codegen) (merge_settings flags empty_config [])
unfolding merge_settings
merge_settings-SameFlags flags cfg codegen = (refl, refl)

SameFlags-trans : (s t u : DeploySettings) → SameFlags s t → SameFlags t u → SameFlags s u
SameFlags-trans s t u a b = (a.0 ∙ b.0, a.1 ∙ b.1)

-- If settings are resolved, then whatever the file and the generator's file say, the S3 keys and the switches that authorize data loss, a new server, a skipped step or a written credentials file are those that the flags give for an empty file.
pub resolve_deploy_settings-SameFlags :
    (flags : Flags) (file : DeployConfig ⊎ ConfigError) (gen : Option (Codegen ⊎ ConfigError))
    (s : DeploySettings)
    → resolve_deploy_settings flags file gen ≡ inl s
    → SameFlags s (merge_settings flags empty_config [])
unfolding resolve_deploy_settings
resolve_deploy_settings-SameFlags flags (inr e) gen s h = ground (arith, h)
resolve_deploy_settings-SameFlags flags (inl cfg) (some (inr e)) s h = ground (arith, h)
resolve_deploy_settings-SameFlags flags (inl cfg) none s h =
    let m = merge_settings flags cfg cfg.codegen in
    SameFlags-trans s m (merge_settings flags empty_config [])
      (check_settings-SameFlags m s (normalize_db_engine m.db) h)
      (merge_settings-SameFlags flags cfg cfg.codegen)
resolve_deploy_settings-SameFlags flags (inl cfg) (some (inl keys)) s h =
    let m = merge_settings flags cfg (overlay cfg.codegen keys) in
    SameFlags-trans s m (merge_settings flags empty_config [])
      (check_settings-SameFlags m s (normalize_db_engine m.db) h)
      (merge_settings-SameFlags flags cfg (overlay cfg.codegen keys))

-- No secret and no path of this machine; and the way to an external database, if there was one.
abbrev pub Shareable : DeploySettings → DeployConfig → Type 0
Shareable s cfg =
    ((cfg.db_dsn ≡ none) × (cfg.ssh_key ≡ none))
    × (((cfg.source_dir ≡ none) × (cfg.web_url ≡ none))
        × ((s.db_dsn ≡ []) ⊎ (cfg.connection ≡ some s.connection)))

dsn_or_connection :
    (dsn connection : Text)
    → (not (is_nil dsn) && is_nil connection) ≡ false
    → (dsn ≡ []) ⊎ (text_or_none connection ≡ some connection)
dsn_or_connection [] connection h = inl refl
dsn_or_connection (c ∷ dsn) [] h = ground (arith, h)
dsn_or_connection (c ∷ dsn) (d ∷ connection) h = inr refl

lock_kept :
    (s : DeploySettings) (cfg : DeployConfig) (refused : Bool)
    → (not (is_nil s.db_dsn) && is_nil s.connection) ≡ refused
    → (if refused then none else some (without_machine_local (to_deploy_config s))) ≡ some cfg
    → Shareable s cfg
unfolding without_machine_local to_deploy_config
lock_kept s cfg true e h = ground (arith, h)
lock_kept s cfg false e h =
    let same = some-injective (without_machine_local (to_deploy_config s)) cfg h in
    subst (Shareable s) same
      ((refl, refl), ((refl, refl), dsn_or_connection s.db_dsn s.connection e))

lock_in-Shareable :
    (dir : Option Text) (s : DeploySettings) (cfg : DeployConfig)
    → lock_in dir s ≡ some cfg
    → Shareable s cfg
unfolding lock_in
lock_in-Shareable none s cfg h = ground (arith, h)
lock_in-Shareable (some dir) s cfg h =
    lock_kept s cfg (not (is_nil s.db_dsn) && is_nil s.connection) refl h

-- If a deploy leaves a lock file, then the file has no connection string, no key file, no source directory and no web address, and a deploy that was given a connection string names its team connection in it.
pub deploy_lock-Shareable :
    (db_only : Bool) (app_dir source_root : Text) (s : DeploySettings) (cfg : DeployConfig)
    → deploy_lock db_only app_dir source_root s ≡ some cfg
    → Shareable s cfg
unfolding deploy_lock
deploy_lock-Shareable db_only app_dir source_root s cfg h =
    lock_in-Shareable (lock_dir db_only app_dir source_root) s cfg h
