-- ===== src/App/Pipeline/Routes.antt =====
-- Which steps a deploy to a cluster leaves out, and which ones a deploy to a server does.
use nuzur_cli.App.Pipeline.Steps.{
  deploy_steps, opening_steps, k8s_steps, box_steps, closing_steps, step,
}
use nuzur_cli.Base.{◌≡◌, Bool, false, not, ◌&&◌, ◌||◌, List, [], ◌∷◌, All, arith, refl}
use nuzur_cli.Text.{Text, codes, equal}
use nuzur_cli.App.Pipeline.{DeployState, DeployStep, is_k8s}
use nuzur_cli.App.Pipeline.Run.{Perform, run_steps, run_cons}

-- Whether a text is in a list.
abbrev pub named : Text → List Text → Bool
unfolding equal
named t [] = false
named t (u ∷ us) = equal t u || named t us

-- The steps that install software on a server of its own, or talk to the agent on it.
abbrev pub server_steps : List Text
server_steps =
    codes "check cli release"
    ∷ codes "issue provisioning token"
    ∷ codes "copy source"
    ∷ codes "bootstrap"
    ∷ codes "wait for agent"
    ∷ codes "publish catalog"
    ∷ codes "read back front door"
    ∷ []

abbrev pub cluster_steps : List Text
cluster_steps =
    codes "resolve cluster"
    ∷ codes "write host config"
    ∷ codes "stamp chart version"
    ∷ codes "commit and push"
    ∷ codes "wait for ci"
    ∷ codes "resolve image"
    ∷ codes "helm release"
    ∷ codes "read back cluster address"
    ∷ []

-- What the state of a step that runs must be.
abbrev pub OnRoute : DeployStep → DeployState → Type 0
OnRoute s st =
    ((named s.name server_steps && is_k8s st) ≡ false)
    × ((named s.name cluster_steps && not (is_k8s st)) ≡ false)

-- A step whose precondition keeps it on its route.
abbrev Kept : DeployStep → Type 0
Kept s = (st : DeployState) → s.skip st ≡ false → OnRoute s st

pub run_steps-All :
    (P : DeployStep → DeployState → Type 0) (perform : Perform) (ss : List DeployStep)
    (st : DeployState)
    → All (λ s. (st : DeployState) → s.skip st ≡ false → P s st) ss
    → All (λ e. P e.step e.state) (run_steps perform ss st)
unfolding run_steps
run_steps-All P perform [] st h = tt
run_steps-All P perform (s ∷ ss) st h =
    run_cons (All (λ e. P e.step e.state)) (s.skip st) (perform s.name st).1
      (λ _. run_steps-All P perform ss st h.1) (λ runs _. (h.0 st runs, tt))
      (λ runs _. (h.0 st runs, run_steps-All P perform ss (perform s.name st).0 h.1))

-- Why a step keeps to its route: it is on both, or its precondition asks for the one.
data Route (s : DeployStep) : Type 0 where
  either_route : named s.name server_steps ≡ false → named s.name cluster_steps ≡ false → Route s
  server_route :
      named s.name cluster_steps ≡ false
      → ((st : DeployState) → s.skip st ≡ false → is_k8s st ≡ false)
      → Route s
  cluster_route :
      named s.name server_steps ≡ false
      → ((st : DeployState) → s.skip st ≡ false → not (is_k8s st) ≡ false)
      → Route s

Route-Kept : (s : DeployStep) → Route s → Kept s
Route-Kept s (either_route a b) st h = (ground arith, ground arith)
Route-Kept s (server_route a f) st h = (ground (arith, f st h), ground (arith, a))
Route-Kept s (cluster_route a f) st h = (ground (arith, a), ground (arith, f st h))

Routes-Kept : (ss : List DeployStep) → All Route ss → All Kept ss
Routes-Kept [] h = tt
Routes-Kept (s ∷ ss) h = (Route-Kept s h.0, Routes-Kept ss h.1)

or_left : (a b : Bool) → (a || b) ≡ false → a ≡ false
or_left a b h = ground arith

or_right : (a b : Bool) → (a || b) ≡ false → b ≡ false
or_right a b h = ground arith

deploy_steps-Route : All Route deploy_steps
unfolding deploy_steps opening_steps k8s_steps box_steps closing_steps step equal
deploy_steps-Route = (
  either_route refl refl,
  (
    either_route refl refl,
    (
      either_route refl refl,
      (
        either_route refl refl,
        (
          server_route refl (λ _ h. h),
          (
            server_route refl (λ _ h. h),
            (
              either_route refl refl,
              (
                either_route refl refl,
                (
                  either_route refl refl,
                  (
                    either_route refl refl,
                    (
                      either_route refl refl,
                      (
                        either_route refl refl,
                        (
                          cluster_route refl (λ _ h. h),
                          (
                            cluster_route refl (λ _ h. h),
                            (
                              cluster_route refl (λ st h. or_left _ _ h),
                              (
                                cluster_route refl (λ st h. or_left _ _ (or_left _ _ h)),
                                (
                                  cluster_route refl (λ st h. or_left _ _ (or_left _ _ h)),
                                  (
                                    cluster_route refl (λ _ h. h),
                                    (
                                      server_route refl (λ st h. or_right _ _ h),
                                      (
                                        server_route refl (λ _ h. h),
                                        (
                                          server_route refl (λ _ h. h),
                                          (
                                            server_route refl (λ _ h. h),
                                            (
                                              cluster_route refl (λ _ h. h),
                                              (
                                                either_route refl refl,
                                                (
                                                  server_route refl (λ _ h. h),
                                                  (
                                                    cluster_route refl (λ _ h. h),
                                                    (
                                                      either_route refl refl,
                                                      (
                                                        either_route refl refl,
                                                        (
                                                          either_route refl refl,
                                                          (either_route refl refl, tt),
                                                        ),
                                                      ),
                                                    ),
                                                  ),
                                                ),
                                              ),
                                            ),
                                          ),
                                        ),
                                      ),
                                    ),
                                  ),
                                ),
                              ),
                            ),
                          ),
                        ),
                      ),
                    ),
                  ),
                ),
              ),
            ),
          ),
        ),
      ),
    ),
  ),
)

-- In every run of a deploy, whatever its steps do: no step that installs on a server or waits for its agent runs in a state for a cluster, and no step for a cluster runs in another state.
pub deploy_steps-OnRoute :
    (perform : Perform) (st : DeployState)
    → All (λ e. OnRoute e.step e.state) (run_steps perform deploy_steps st)
deploy_steps-OnRoute perform st =
    run_steps-All OnRoute perform deploy_steps st (Routes-Kept deploy_steps deploy_steps-Route)
