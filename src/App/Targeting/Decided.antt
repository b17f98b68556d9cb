-- ===== src/App/Targeting/Decided.antt =====
-- On which record a deploy decides about its server, and what it decides.
use nuzur_cli.Base.{◌≡◌, refl, Bool, true, false, Option, none, some, is_nil, Bool-cases, inl, inr}
use nuzur_cli.Deploy.{Deployment, creates_infrastructure, uses_given_host}
use nuzur_cli.Text.{Text, equal, trim_space}
use nuzur_cli.App.Targeting.{is_managed, pick_managed_box}
use nuzur_cli.App.Targeting.Box.{
  BoxDecision, BoxDecisionInput, decide_deploy_box, decide_managed, box_use_given_host,
  box_provision, box_reuse_recorded, box_fail,
}
use nuzur_cli.App.Targeting.Picks.{NonePasses, IsNewest, Picked, pick_managed_box-Picked}

-- The records of servers of the project and the identifier.
abbrev pub is_box_of : BoxDecisionInput → Deployment → Bool
is_box_of i = is_managed i.project_uuid i.identifier

-- The decision that the records call for.
pub data Decided (i : BoxDecisionInput) (b : BoxDecision) : Type 0 where
  given_host :
      creates_infrastructure i.provider ≡ false
      → b.action ≡ box_use_given_host
      → b.host ≡ i.host_flag
      → Decided i b
  first_server :
      creates_infrastructure i.provider ≡ true
      → NonePasses (is_box_of i) i.deployments
      → b.action ≡ box_provision
      → b.match ≡ none
      → Decided i b
  elsewhere :
      (r : Deployment)
      → creates_infrastructure i.provider ≡ true
      → IsNewest (is_box_of i) i.deployments r
      → equal r.provider i.provider ≡ false
      → b.action ≡ box_provision
      → b.match ≡ some r
      → Decided i b
  beside :
      (r : Deployment)
      → creates_infrastructure i.provider ≡ true
      → IsNewest (is_box_of i) i.deployments r
      → equal r.provider i.provider ≡ true
      → i.new_vm ≡ true
      → b.action ≡ box_provision
      → b.match ≡ some r
      → Decided i b
  lost :
      (r : Deployment)
      → creates_infrastructure i.provider ≡ true
      → IsNewest (is_box_of i) i.deployments r
      → equal r.provider i.provider ≡ true
      → i.new_vm ≡ false
      → is_nil (trim_space r.host) ≡ true
      → b.action ≡ box_fail
      → Decided i b
  reused :
      (r : Deployment)
      → creates_infrastructure i.provider ≡ true
      → IsNewest (is_box_of i) i.deployments r
      → equal r.provider i.provider ≡ true
      → i.new_vm ≡ false
      → is_nil (trim_space r.host) ≡ false
      → b.action ≡ box_reuse_recorded
      → (b.host ≡ r.host) × ((b.user ≡ r.user) × (b.port ≡ r.port))
      → Decided i b

module _ (quote : Text → Text) (i : BoxDecisionInput) where
  decide_managed-Decided :
      (o : Option Deployment)
      → creates_infrastructure i.provider ≡ true
      → Picked (is_box_of i) i.deployments o
      → Decided i (decide_managed quote i o)
  unfolding decide_managed
  decide_managed-Decided none managed h = first_server managed h refl refl
  decide_managed-Decided (some r) managed h = elim (Bool-cases (equal r.provider i.provider)) [
    | inr other ↦ elsewhere r managed h other (rw other) (rw other)
    | inl same ↦ elim (Bool-cases i.new_vm) [
      | inl fresh ↦ beside r managed h same fresh (rw (same, fresh)) (rw (same, fresh))
      | inr stay ↦ elim (Bool-cases (is_nil (trim_space r.host))) [
        | inl missing ↦ lost r managed h same stay missing (rw (same, stay, missing))
        | inr there ↦
            reused r managed h same stay there (rw (same, stay, there))
              (rw (same, stay, there), (rw (same, stay, there), rw (same, stay, there)))
      ]
    ]
  ]

-- A deploy uses the given host exactly if the provider creates no server; else the newest record of the project and the identifier decides: it provisions if there is none, if it is of another provider or with --new-vm, fails if it has no host, and else reuses its host, user and port.
pub decide_deploy_box-Decided :
    (quote : Text → Text) (i : BoxDecisionInput) → Decided i (decide_deploy_box quote i)
unfolding decide_deploy_box uses_given_host
decide_deploy_box-Decided quote i = elim (Bool-cases (creates_infrastructure i.provider)) [
  | inr given ↦ given_host given (rw given) (rw given)
  | inl managed ↦ rw managed (
      decide_managed-Decided quote i (pick_managed_box i.deployments i.project_uuid i.identifier)
        managed (pick_managed_box-Picked i.deployments i.project_uuid i.identifier))
]
