-- ===== src/App/Targeting/Adopted.antt =====
-- Which settings a deploy has after it took those of a record.
use nuzur_cli.Base.{
  ℕ, zero, suc, ◌≡◌, ◌++◌, refl, sym, ap, ◌∙◌, subst, ◌⊎◌, inl, inr, Bool, true, false, not, ◌&&◌,
  List, [], ◌∷◌, some, if◌then◌else◌, is_nil, Bool-cases, arith, ◌==◌, ◌||◌,
}
use nuzur_cli.Deploy.{Deployment}
use nuzur_cli.Text.{Text, codes, trim_space}
use nuzur_cli.App.Config.{DeploySettings}
use nuzur_cli.App.Targeting.Selector.{
  cannot_reach, Adoption, Adopted, is_stated, adopt, adopt_all, adoptions, adopt_port, check_reach,
  apply_deployment_selector, image_repo_from_ref, cannot_reach,
}

-- The settings that a record can give, in the order of the adoptions, and the connection string.
abbrev pub targets : DeploySettings → List Text
targets s =
    s.project ∷ s.identifier ∷ s.provider ∷ s.host ∷ s.user ∷ s.db ∷ s.domain ∷ s.auth_domain
    ∷ s.grpc_domain ∷ s.image_repo ∷ s.source_dir ∷ s.version ∷ s.connection ∷ s.db_dsn ∷ []

-- The setting as it was if its flag was set or the record has no value, else the value of the record.
abbrev pub chosen : (Text → Bool) → Text → Text → Text → Text
chosen is_set flag old from = if is_stated is_set flag from then old else from

-- The settings that the flags and the record call for.
abbrev pub chosen_targets : (Text → Bool) → Deployment → DeploySettings → List Text
chosen_targets is_set r s =
    chosen is_set (codes "project") s.project r.project_uuid
    ∷ chosen is_set (codes "identifier") s.identifier r.identifier
    ∷ chosen is_set (codes "provider") s.provider r.provider
    ∷ chosen is_set (codes "host") s.host r.host
    ∷ chosen is_set (codes "user") s.user r.user
    ∷ chosen is_set (codes "db") s.db r.db_engine
    ∷ chosen is_set (codes "domain") s.domain r.domain
    ∷ chosen is_set (codes "auth-domain") s.auth_domain r.auth_domain
    ∷ chosen is_set (codes "grpc-domain") s.grpc_domain r.grpc_domain
    ∷ chosen is_set (codes "image-repo") s.image_repo (image_repo_from_ref r.image_ref)
    ∷ chosen is_set (codes "source-dir") s.source_dir r.workspace_dir
    ∷ chosen is_set (codes "version") s.version r.project_version_uuid
    ∷ chosen is_set (codes "connection") s.connection r.team_conn_uuid
    ∷ s.db_dsn
    ∷ []

-- The text at a position, replaced unless the Boolean holds.
abbrev replace_at : Bool → Text → ℕ → List Text → List Text
replace_at keep v i [] = []
replace_at keep v zero (x ∷ l) = (if keep then x else v) ∷ l
replace_at keep v (suc i) (x ∷ l) = x ∷ replace_at keep v i l

replace_at-true : (v : Text) (i : ℕ) (l : List Text) → replace_at true v i l ≡ l
replace_at-true v zero [] = refl
replace_at-true v (suc i) [] = refl
replace_at-true v zero (x ∷ l) = refl
replace_at-true v (suc i) (x ∷ l) = ap (λ m. x ∷ m) (replace_at-true v i l)

-- Adoptions that each assign the text at the next position.
abbrev replace_all_from : (Text → Bool) → ℕ → List Adoption → List Text → List Text
replace_all_from is_set i [] l = l
replace_all_from is_set i (a ∷ more) l =
    replace_all_from is_set (suc i) more (replace_at (is_stated is_set a.flag a.from) a.from i l)

abbrev AssignsFrom : ℕ → List Adoption → Type 0
AssignsFrom i [] = Unit
AssignsFrom i (a ∷ more) =
    ((s : DeploySettings) → targets (a.assign s) ≡ replace_at false a.from i (targets s))
    × AssignsFrom (suc i) more

either_targets :
    (b : Bool) (v : Text) (i : ℕ) (x y : Adopted)
    → targets y.0 ≡ replace_at false v i (targets x.0)
    → targets (if b then x else y).0 ≡ replace_at b v i (targets x.0)
either_targets true v i x y h = sym (replace_at-true v i (targets x.0))
either_targets false v i x y h = h

module _ (is_set : Text → Bool) where
  adopt-targets :
      (a : Adoption) (i : ℕ) (x : Adopted)
      → ((s : DeploySettings) → targets (a.assign s) ≡ replace_at false a.from i (targets s))
      → targets (adopt is_set a x).0
        ≡ replace_at (is_stated is_set a.flag a.from) a.from i (targets x.0)
  unfolding adopt
  adopt-targets a i x h =
      either_targets (is_stated is_set a.flag a.from) a.from i x
        (a.assign x.0, x.1 ++ (a.flag ++ (b'=' ∷ a.from)) ∷ []) (h x.0)

  adopt_all-targets :
      (more : List Adoption) (i : ℕ) (x : Adopted)
      → AssignsFrom i more
      → targets (adopt_all is_set more x).0 ≡ replace_all_from is_set i more (targets x.0)
  unfolding adopt_all
  adopt_all-targets [] i x h = refl
  adopt_all-targets (a ∷ more) i x h =
      adopt_all-targets more (suc i) (adopt is_set a x) h.1
      ∙ ap (replace_all_from is_set (suc i) more) (adopt-targets a i x h.0)

  adopt_port-targets :
      (r : Deployment) (x : Adopted) → targets (adopt_port is_set r x).0 ≡ targets x.0
  unfolding adopt_port
  adopt_port-targets r x = elim (Bool-cases (not (is_set (codes "port")) && not (r.port == 0))) [
    | inl adopts ↦ rw adopts refl
    | inr stays ↦ rw stays refl
  ]

-- The port as it was if its flag was set or the record has none, else the one of the record.
abbrev pub chosen_port : (Text → Bool) → ℕ → ℕ → ℕ
chosen_port is_set old from = if is_set (codes "port") || from == 0 then old else from

abbrev KeepPort : List Adoption → Type 0
KeepPort [] = Unit
KeepPort (a ∷ more) = ((s : DeploySettings) → (a.assign s).port ≡ s.port) × KeepPort more

port_unless :
    (b : Bool) (x y : Adopted) → y.0.port ≡ x.0.port → (if b then x else y).0.port ≡ x.0.port
port_unless true x y h = refl
port_unless false x y h = h

adopt_all-port :
    (is_set : Text → Bool) (more : List Adoption) (x : Adopted)
    → KeepPort more
    → (adopt_all is_set more x).0.port ≡ x.0.port
unfolding adopt_all adopt
adopt_all-port is_set [] x h = refl
adopt_all-port is_set (a ∷ more) x h =
    adopt_all-port is_set more (adopt is_set a x) h.1
    ∙ port_unless (is_stated is_set a.flag a.from) x
        (a.assign x.0, x.1 ++ (a.flag ++ (b'=' ∷ a.from)) ∷ []) (h.0 x.0)

port_taken :
    (a b : Bool) (x y : Adopted)
    → (if not a && not b then y else x).0.port ≡ (if a || b then x.0.port else y.0.port)
port_taken true b x y = refl
port_taken false true x y = refl
port_taken false false x y = refl

adopt_port-chosen :
    (is_set : Text → Bool) (r : Deployment) (x : Adopted)
    → (adopt_port is_set r x).0.port ≡ chosen_port is_set x.0.port r.port
unfolding adopt_port
adopt_port-chosen is_set r x = port_taken (is_set (codes "port")) (r.port == 0) x _

adoptions-KeepPort : (r : Deployment) → KeepPort (adoptions r)
unfolding adoptions
adoptions-KeepPort r = (
  λ s. refl,
  (
    λ s. refl,
    (
      λ s. refl,
      (
        λ s. refl,
        (
          λ s. refl,
          (
            λ s. refl,
            (
              λ s. refl,
              (λ s. refl, (λ s. refl, (λ s. refl, (λ s. refl, (λ s. refl, (λ s. refl, tt)))))),
            ),
          ),
        ),
      ),
    ),
  ),
)

adoptions-Assigns : (r : Deployment) → AssignsFrom 0 (adoptions r)
unfolding adoptions
adoptions-Assigns r = (
  λ s. refl,
  (
    λ s. refl,
    (
      λ s. refl,
      (
        λ s. refl,
        (
          λ s. refl,
          (
            λ s. refl,
            (
              λ s. refl,
              (λ s. refl, (λ s. refl, (λ s. refl, (λ s. refl, (λ s. refl, (λ s. refl, tt)))))),
            ),
          ),
        ),
      ),
    ),
  ),
)

-- A database outside the server that the settings do not name.
abbrev pub is_unreachable : Deployment → DeploySettings → Bool
is_unreachable r s =
    r.external_db && (is_nil (trim_space s.db_dsn) && is_nil (trim_space s.connection))

passed :
    {x y : Adopted} (message : Text) (b : Bool)
    → Path (Adopted ⊎ Text) (if b then inr message else inl x) (inl y)
    → (b ≡ false) × (x ≡ y)
passed message true h = ground (arith, h)
passed {x} message false h = (refl, ap (λ z. elim z [ inl a ↦ a | inr _ ↦ x ]) h)

check_reach-inl :
    (is_set : Text → Bool) (r : Deployment) (x y : Adopted)
    → check_reach is_set r x ≡ inl y
    → (is_unreachable r x.0 ≡ false) × (adopt_port is_set r x ≡ y)
unfolding check_reach
check_reach-inl is_set r x y h = passed (cannot_reach r) (is_unreachable r x.0) h

-- The text at a position.
abbrev text_at : ℕ → List Text → Text
text_at i [] = []
text_at zero (x ∷ l) = x
text_at (suc i) (x ∷ l) = text_at i l

reach_kept :
    (r : Deployment) (s t : DeploySettings)
    → targets s ≡ targets t
    → is_unreachable r s ≡ false
    → is_unreachable r t ≡ false
reach_kept r s t same h =
    subst
      (λ l.
        (r.external_db
          && (is_nil (trim_space (text_at 13 l)) && is_nil (trim_space (text_at 12 l))))
        ≡ false)
      same h

-- If a record is taken, then each setting that it can give, the port too, is as it was where its flag was set or the record has no value, and else is the value of the record; and if the record's database is external, the settings have a connection string or a team connection.
pub apply_deployment_selector-chosen :
    (s : DeploySettings) (r : Deployment) (is_set : Text → Bool) (x : Adopted)
    → apply_deployment_selector s (some r) is_set ≡ inl x
    → ((targets x.0 ≡ chosen_targets is_set r s) × (x.0.port ≡ chosen_port is_set s.port r.port))
      × (is_unreachable r x.0 ≡ false)
unfolding apply_deployment_selector adoptions
apply_deployment_selector-chosen s r is_set x h =
    let before = adopt_all is_set (adoptions r) (s, []) in
    let checked = check_reach-inl is_set r before x h in
    let same = ap (λ y. targets y.0) (sym checked.1) ∙ adopt_port-targets is_set r before in
    let port = ap (λ y. y.0.port) (sym checked.1) ∙ adopt_port-chosen is_set r before in
    (
      (
        same ∙ adopt_all-targets is_set (adoptions r) 0 (s, []) (adoptions-Assigns r),
        port
            ∙ ap (λ p. chosen_port is_set p r.port)
                (adopt_all-port is_set (adoptions r) (s, []) (adoptions-KeepPort r)),
      ),
      reach_kept r before.0 x.0 (sym same) checked.0,
    )
