-- ===== src/App/Pipeline/Run.antt =====
-- The loop of `Implementation.Deploy` in app/command_deploy.go that runs the steps. What a step does
-- is an argument of the model: from the name of the step and the state it starts in, the state it
-- leaves and whether it returned an error.
use nuzur_cli.Base.{Bool, true, false, List, [], ◌∷◌, if◌then◌else◌, ◌≡◌, refl}
use nuzur_cli.Text.{Text}
use nuzur_cli.App.Pipeline.{DeployState, DeployStep}

abbrev pub Perform : Type 0
Perform = Text → DeployState → DeployState × Bool

-- A step that ran: the state it started in, and whether it returned an error.
pub record Executed : Type 0 where
  pub step : DeployStep
  pub state : DeployState
  pub failed : Bool

-- The steps that ran, in order.
unfoldable pub run_steps : Perform → List DeployStep → DeployState → List Executed
run_steps perform [] st = []
run_steps perform (s ∷ ss) st =
    let result = perform s.name st in
    let rest = run_steps perform ss result.0 in
    let skipped = run_steps perform ss st in
    if s.skip st
    then skipped
    else record { step = s; state = st; failed = result.1 } ∷ (if result.1 then [] else rest)

-- What the loop returns: whether a step returned an error.
unfoldable pub steps_failed : List Executed → Bool
steps_failed [] = false
steps_failed (e ∷ es) = if e.failed then true else steps_failed es

-- To show a property of the steps that ran, by what the first one did.
pub run_cons :
    (P : List Executed → Type 0) (skipped failed : Bool) {others rest : List Executed}
    {e : Executed}
    → (skipped ≡ true → P others)
    → (skipped ≡ false → failed ≡ true → P (e ∷ []))
    → (skipped ≡ false → failed ≡ false → P (e ∷ rest))
    → P (if skipped then others else e ∷ (if failed then [] else rest))
run_cons P true failed a b c = a refl
run_cons P false true a b c = b refl refl
run_cons P false false a b c = c refl refl
