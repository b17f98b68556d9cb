-- ===== src/App/Pipeline/Stops.antt =====
-- What an error does to a run of the steps, and what a run without one has done.
use nuzur_cli.Base.{
  ◌≡◌, refl, true, false, List, [], ◌∷◌, ◌++◌, Any, inl, inr, arith, take, drop, ◌⊎◌, Bool-cases,
  ap,
}
use nuzur_cli.Deploy.{step_finalized}
use nuzur_cli.Text.{codes}
use nuzur_cli.App.Pipeline.{DeployState, DeployStep, eff_record}
use nuzur_cli.App.Pipeline.Run.{Perform, Executed, run_steps, steps_failed, run_cons}
use nuzur_cli.App.Pipeline.Steps.{
  deploy_steps, opening_steps, k8s_steps, box_steps, closing_steps, step,
}

-- No step but the last one returned an error.
abbrev pub FailsLast : List Executed → Type 0
FailsLast [] = Unit
FailsLast (e ∷ []) = Unit
FailsLast (e ∷ f ∷ es) = (e.failed ≡ false) × FailsLast (f ∷ es)

FailsLast-cons :
    (e : Executed) (es : List Executed) → e.failed ≡ false → FailsLast es → FailsLast (e ∷ es)
FailsLast-cons e [] h hs = tt
FailsLast-cons e (f ∷ es) h hs = (h, hs)

run_steps-FailsLast :
    (perform : Perform) (ss : List DeployStep) (st : DeployState)
    → FailsLast (run_steps perform ss st)
unfolding run_steps
run_steps-FailsLast perform [] st = tt
run_steps-FailsLast perform (s ∷ ss) st =
    run_cons FailsLast (s.skip st) (perform s.name st).1 (λ _. run_steps-FailsLast perform ss st)
      (λ _ _. tt)
      (λ _ ok.
        FailsLast-cons (record { step = s; state = st; failed = (perform s.name st).1 })
          (run_steps perform ss (perform s.name st).0) ok
          (run_steps-FailsLast perform ss (perform s.name st).0))

-- In a run without an error, a step that the run reaches and that has no precondition ran.
run_steps-Any :
    (perform : Perform) (Q : Executed → Type 0) (before : List DeployStep) (s : DeployStep)
    (after : List DeployStep) (st : DeployState)
    → ((st : DeployState) → s.skip st ≡ false)
    → ((e : Executed) → e.step ≡ s → Q e)
    → steps_failed (run_steps perform (before ++ s ∷ after) st) ≡ false
    → Any Q (run_steps perform (before ++ s ∷ after) st)
unfolding run_steps steps_failed
run_steps-Any perform Q [] s after st always q =
    run_cons (λ es. steps_failed es ≡ false → Any Q es) (s.skip st) (perform s.name st).1
      (λ skipped ok. ground (arith, skipped, always st)) (λ _ _ _. inl (q _ refl))
      (λ _ _ _. inl (q _ refl))
run_steps-Any perform Q (b ∷ bs) s after st always q =
    run_cons (λ es. steps_failed es ≡ false → Any Q es) (b.skip st) (perform b.name st).1
      (λ _. run_steps-Any perform Q bs s after st always q)
      (λ _ failed ok. ground (arith, failed, ok))
      (λ _ works ok. inr (
        run_steps-Any perform Q bs s after (perform b.name st).0 always q
          (ground (arith, works, ok))))

-- In every run of a deploy, whatever its steps do, only the last step that ran can have returned an error; and if none did, the run established the checkpoint `finalized`.
pub deploy_steps-stops :
    (perform : Perform) (st : DeployState)
    → FailsLast (run_steps perform deploy_steps st)
      × ((steps_failed (run_steps perform deploy_steps st) ≡ true)
          ⊎ Any (λ e. e.step.checkpoint ≡ step_finalized) (run_steps perform deploy_steps st))
unfolding deploy_steps opening_steps k8s_steps box_steps closing_steps step
deploy_steps-stops perform st =
    let finalize = step (codes "finalize record") (eff_record ∷ []) step_finalized (λ _. false) in
    (
      run_steps-FailsLast perform deploy_steps st,
      elim (Bool-cases (steps_failed (run_steps perform deploy_steps st))) [
        | inl fails ↦ inl fails
        | inr works ↦ inr (
            run_steps-Any perform (λ e. e.step.checkpoint ≡ step_finalized) (take 26 deploy_steps)
              finalize (drop 27 deploy_steps) st (λ _. refl) (λ e h. ap (λ s. s.checkpoint) h)
              works)
      ],
    )
