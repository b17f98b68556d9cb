-- ===== src/App/Pipeline/Order.antt =====
-- The order of the checkpoints in a run of the steps, and what an error does to it.
use nuzur_cli.Text.{Text}
use nuzur_cli.Base.{ℕ, ◌<◌, ◌≤◌, ◌≡◌, refl, List, [], ◌∷◌, map, arith, subst, sym}
use nuzur_cli.Deploy.{step_rank}
use nuzur_cli.App.Pipeline.{DeployState, DeployStep, Text}
use nuzur_cli.App.Pipeline.Run.{Perform, Executed, run_steps, run_cons}
use nuzur_cli.App.Pipeline.Steps.{
  deploy_steps, opening_steps, k8s_steps, box_steps, closing_steps, step,
}

-- The rank of a checkpoint before the others; none where there is no checkpoint.
abbrev pub rank_onto : Text → List ℕ → List ℕ
rank_onto [] ranks = ranks
rank_onto (c ∷ cs) ranks = step_rank (c ∷ cs) ∷ ranks

-- The ranks of the checkpoints that steps declare, in order.
abbrev pub checkpoint_ranks : List DeployStep → List ℕ
checkpoint_ranks [] = []
checkpoint_ranks (s ∷ ss) = rank_onto s.checkpoint (checkpoint_ranks ss)

-- Each number is above the one before it, and the first one is above the bound.
abbrev pub Increasing : ℕ → List ℕ → Type 0
Increasing n [] = Unit
Increasing n (x ∷ xs) = (n < x) × Increasing x xs

Increasing-lower : (n m : ℕ) (xs : List ℕ) → n ≤ m → Increasing m xs → Increasing n xs
Increasing-lower n m [] le h = h
Increasing-lower n m (x ∷ xs) le h = (omega (arith, le, h.0), h.1)

abbrev pub steps_of : List Executed → List DeployStep
steps_of = map (λ e. e.step)

Increasing-onto :
    (n : ℕ) (c : Text) (xs ys : List ℕ)
    → ((m : ℕ) → Increasing m xs → Increasing m ys)
    → Increasing n (rank_onto c xs)
    → Increasing n (rank_onto c ys)
Increasing-onto n [] xs ys f h = f n h
Increasing-onto n (c ∷ cs) xs ys f h = (h.0, f (step_rank (c ∷ cs)) h.1)

Increasing-drop : (n : ℕ) (c : Text) (xs : List ℕ) → Increasing n (rank_onto c xs) → Increasing n xs
Increasing-drop n [] xs h = h
Increasing-drop n (c ∷ cs) xs h =
    Increasing-lower n (step_rank (c ∷ cs)) xs (omega (arith, h.0)) h.1

deploy_steps-ranks : checkpoint_ranks deploy_steps ≡ 1 ∷ 2 ∷ 3 ∷ 4 ∷ 5 ∷ 6 ∷ []
unfolding deploy_steps opening_steps k8s_steps box_steps closing_steps step_rank step
deploy_steps-ranks = refl

deploy_steps-Increasing : Increasing 0 (checkpoint_ranks deploy_steps)
deploy_steps-Increasing =
    subst (Increasing 0) (sym deploy_steps-ranks)
      (omega arith, (omega arith, (omega arith, (omega arith, (omega arith, (omega arith, tt))))))

pub run_steps-Increasing :
    (perform : Perform) (ss : List DeployStep) (st : DeployState) (n : ℕ)
    → Increasing n (checkpoint_ranks ss)
    → Increasing n (checkpoint_ranks (steps_of (run_steps perform ss st)))
unfolding run_steps
run_steps-Increasing perform [] st n h = h
run_steps-Increasing perform (s ∷ ss) st n h =
    run_cons (λ es. Increasing n (checkpoint_ranks (steps_of es))) (s.skip st) (perform s.name st).1
      (λ _.
        run_steps-Increasing perform ss st n
          (Increasing-drop n s.checkpoint (checkpoint_ranks ss) h))
      (λ _ _. Increasing-onto n s.checkpoint (checkpoint_ranks ss) [] (λ m _. tt) h)
      (λ _ _.
        Increasing-onto n s.checkpoint (checkpoint_ranks ss)
          (checkpoint_ranks (steps_of (run_steps perform ss (perform s.name st).0)))
          (run_steps-Increasing perform ss (perform s.name st).0) h)

-- In every run of a deploy, whatever its settings and whatever its steps do, each checkpoint that a step which ran declares ranks above those before it.
pub checkpoints-Increasing :
    (perform : Perform) (st : DeployState)
    → Increasing 0 (checkpoint_ranks (steps_of (run_steps perform deploy_steps st)))
checkpoints-Increasing perform st =
    run_steps-Increasing perform deploy_steps st 0 deploy_steps-Increasing
