-- ===== src/App/Targeting/Selector.antt =====
-- `applyDeploymentSelector` of app/deploy_targeting.go, with `imageRepoFromRef` of app/deploy_k8s.go:
-- what --deployment takes from a record into the settings.
use nuzur_cli.Deploy.{Deployment}
use nuzur_cli.Base.{
  ℕ, suc, Bool, false, not, ◌&&◌, ◌||◌, List, [], ◌∷◌, ◌++◌, Option, none, some, if◌then◌else◌,
  is_nil, take, drop, ◌==◌, inl, inr, ◌⊎◌,
}
use nuzur_cli.Text.{Text, codes, trim_space, index_any}
use nuzur_cli.Text.Decimal.{show}
use nuzur_cli.App.Config.{DeploySettings}

-- `strings.LastIndex` of one character
unfoldable pub last_index : ℕ → Text → Option ℕ
last_index c [] = none
last_index c (x ∷ s) = elim (last_index c s) [
  | none ↦ if x == c then some 0 else none
  | some n ↦ some (suc n)
]

unfoldable pub has_char : ℕ → Text → Bool
has_char c [] = false
has_char c (x ∷ s) = x == c || has_char c s

unfoldable pub before_tag : Option ℕ → Text → Text
unfolding has_char
before_tag none ref = ref
before_tag (some i) ref = if has_char b'/' (drop (suc i) ref) then ref else take i ref

unfoldable pub before_digest : Option ℕ → Text → Text
unfolding before_tag last_index
before_digest none ref = before_tag (last_index b':' ref) ref
before_digest (some i) ref = take i ref

unfoldable pub image_repo_from_ref : Text → Text
unfolding before_digest index_any
image_repo_from_ref ref = let r = trim_space ref in before_digest (index_any (λ c. c == b'@') r) r

-- A call of `take`: the flag, the value of the record, and the field that it is for.
pub record Adoption : Type 0 where
  pub flag : Text
  pub from : Text
  pub assign : DeploySettings → DeploySettings

-- The value of the record is not taken: the flag was set, or there is no value.
abbrev pub is_stated : (Text → Bool) → Text → Text → Bool
is_stated is_set flag from = is_set flag || is_nil (trim_space from)

abbrev pub Adopted : Type 0
Adopted = DeploySettings × List Text

unfoldable pub adopt : (Text → Bool) → Adoption → Adopted → Adopted
adopt is_set a x =
    if is_stated is_set a.flag a.from
    then x
    else (a.assign x.0, x.1 ++ (a.flag ++ (b'=' ∷ a.from)) ∷ [])

unfoldable pub adopt_all : (Text → Bool) → List Adoption → Adopted → Adopted
unfolding adopt
adopt_all is_set [] x = x
adopt_all is_set (a ∷ more) x = adopt_all is_set more (adopt is_set a x)

abbrev pub adoption : Text → Text → (DeploySettings → DeploySettings) → Adoption
adoption flag from assign = record { flag = flag; from = from; assign = assign }

-- The calls in their order. An empty repository of the image is not taken either way.
unfoldable pub adoptions : Deployment → List Adoption
unfolding image_repo_from_ref
adoptions r =
    adoption (codes "project") r.project_uuid (λ s. record s { project = r.project_uuid })
    ∷ adoption (codes "identifier") r.identifier (λ s. record s { identifier = r.identifier })
    ∷ adoption (codes "provider") r.provider (λ s. record s { provider = r.provider })
    ∷ adoption (codes "host") r.host (λ s. record s { host = r.host })
    ∷ adoption (codes "user") r.user (λ s. record s { user = r.user })
    ∷ adoption (codes "db") r.db_engine (λ s. record s { db = r.db_engine })
    ∷ adoption (codes "domain") r.domain (λ s. record s { domain = r.domain })
    ∷ adoption (codes "auth-domain") r.auth_domain (λ s. record s { auth_domain = r.auth_domain })
    ∷ adoption (codes "grpc-domain") r.grpc_domain (λ s. record s { grpc_domain = r.grpc_domain })
    ∷ adoption (codes "image-repo") (image_repo_from_ref r.image_ref)
        (λ s. record s { image_repo = image_repo_from_ref r.image_ref })
    ∷ adoption (codes "source-dir") r.workspace_dir (λ s. record s { source_dir = r.workspace_dir })
    ∷ adoption (codes "version") r.project_version_uuid
        (λ s. record s { version = r.project_version_uuid })
    ∷ adoption (codes "connection") r.team_conn_uuid
        (λ s. record s { connection = r.team_conn_uuid })
    ∷ []

unfoldable pub adopt_port : (Text → Bool) → Deployment → Adopted → Adopted
unfolding show
adopt_port is_set r x =
    if not (is_set (codes "port")) && not (r.port == 0)
    then (record x.0 { port = r.port }, x.1 ++ (codes "port=" ++ show r.port) ∷ [])
    else x

unfoldable pub cannot_reach : Deployment → Text
cannot_reach r =
    codes "deployment "
    ++ (r.id
        ++ codes
            " runs against an EXTERNAL database and neither this run nor its record says how to reach it (the record stores that the database is external, and never its credentials) — re-run with the --db-dsn or --connection you deployed it with. Without one, this deploy would self-host a new, empty database on the box instead")

-- The check behind the adoptions.
unfoldable pub check_reach : (Text → Bool) → Deployment → Adopted → Adopted ⊎ Text
unfolding adopt_port cannot_reach
check_reach is_set r x =
    if r.external_db && (is_nil (trim_space x.0.db_dsn) && is_nil (trim_space x.0.connection))
    then inr (cannot_reach r)
    else inl (adopt_port is_set r x)

unfoldable pub apply_deployment_selector :
    DeploySettings → Option Deployment → (Text → Bool) → Adopted ⊎ Text
unfolding check_reach adopt_all adoptions
apply_deployment_selector s none is_set = inl (s, [])
apply_deployment_selector s (some r) is_set =
    check_reach is_set r (adopt_all is_set (adoptions r) (s, []))
