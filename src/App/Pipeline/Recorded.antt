-- ===== src/App/Pipeline/Recorded.antt =====
-- A server is asked for only after the record reserved its name.
use nuzur_cli.Base.{
  ◌≡◌, refl, Bool, true, false, not, ◌&&◌, ◌||◌, List, [], ◌∷◌, ◌++◌, All, arith, ap, drop, &&-true,
  take,
}
use nuzur_cli.Deploy.{creates_infrastructure, step_pending_recorded, step_instance_created}
use nuzur_cli.Text.{Text, codes, equal}
use nuzur_cli.App.Pipeline.{DeployState, DeployStep, eff_record, eff_provider}
use nuzur_cli.App.Pipeline.Run.{Perform, Executed, run_steps, run_cons}
use nuzur_cli.App.Pipeline.Steps.{
  deploy_steps, opening_steps, k8s_steps, box_steps, closing_steps, step,
}

-- Whether the state asks for a server that bills.
abbrev pub orders_server : DeployState → Bool
orders_server st = creates_infrastructure st.provider && not st.reuse_box

abbrev pub is_step : Text → DeployStep → Bool
is_step n s = equal s.name n

-- No step orders a server, unless a step that reserved its name ran before; the Boolean tells whether one did.
abbrev pub Reserved : Bool → List Executed → Type 0
Reserved reserved [] = Unit
Reserved reserved (e ∷ es) =
    ((is_step (codes "provision") e.step && (orders_server e.state && not reserved)) ≡ false)
    × Reserved (is_step (codes "record pending") e.step || reserved) es

false_&& : {a : Bool} (b : Bool) → a ≡ false → (a && b) ≡ false
false_&& b h = ap (λ x. x && b) h

module _ (perform : Perform) where
  -- A step before steps that keep the rule.
  Reserved-cons :
      (s : DeployStep) (ss : List DeployStep) (reserved : Bool) (st : DeployState)
      → (is_step (codes "provision") s && (orders_server st && not reserved)) ≡ false
      → ((reserved : Bool) (st : DeployState) → Reserved reserved (run_steps perform ss st))
      → Reserved reserved (run_steps perform (s ∷ ss) st)
  unfolding run_steps
  Reserved-cons s ss reserved st ok f =
      run_cons (Reserved reserved) (s.skip st) (perform s.name st).1 (λ _. f reserved st)
        (λ _ _. (ok, tt))
        (λ _ _. (ok, f (is_step (codes "record pending") s || reserved) (perform s.name st).0))

  Reserved-others :
      (ss ys : List DeployStep)
      → All (λ s. is_step (codes "provision") s ≡ false) ss
      → ((reserved : Bool) (st : DeployState) → Reserved reserved (run_steps perform ys st))
      → (reserved : Bool) (st : DeployState) → Reserved reserved (run_steps perform (ss ++ ys) st)
  Reserved-others [] ys h f reserved st = f reserved st
  Reserved-others (s ∷ ss) ys h f reserved st =
      Reserved-cons s (ss ++ ys) reserved st (false_&& (orders_server st && not reserved) h.0)
        (Reserved-others ss ys h.1 f)

  -- The step that reserves the name, before the one that orders the server.
  Reserved-provision :
      (ss : List DeployStep) (pending provision : DeployStep)
      → is_step (codes "record pending") pending ≡ true
      → is_step (codes "provision") pending ≡ false
      → ((st : DeployState) → pending.skip st ≡ true → orders_server st ≡ false)
      → ((reserved : Bool) (st : DeployState) → Reserved reserved (run_steps perform ss st))
      → (reserved : Bool) (st : DeployState)
      → Reserved reserved (run_steps perform (pending ∷ provision ∷ ss) st)
  unfolding run_steps
  Reserved-provision ss pending provision is not_it skips f reserved st =
      run_cons (Reserved reserved) (pending.skip st) (perform pending.name st).1
        (λ skipped. Reserved-cons provision ss reserved st (ground (arith, skips st skipped)) f)
        (λ _ _. (false_&& (orders_server st && not reserved) not_it, tt))
        (λ _ _. (
          false_&& (orders_server st && not reserved) not_it,
          Reserved-cons provision ss (is_step (codes "record pending") pending || reserved)
              (perform pending.name st).0 (ground (arith, is)) f,
        ))

abbrev no_provision : List DeployStep → Bool
unfolding equal
no_provision [] = true
no_provision (s ∷ ss) = not (is_step (codes "provision") s) && no_provision ss

no_provision-All :
    (ss : List DeployStep)
    → no_provision ss ≡ true
    → All (λ s. is_step (codes "provision") s ≡ false) ss
unfolding no_provision
no_provision-All [] h = tt
no_provision-All (s ∷ ss) h =
    let both = &&-true (not (is_step (codes "provision") s)) (no_provision ss) h in
    (ground (arith, both.0), no_provision-All ss both.1)

-- In every run of a deploy, whatever its steps do: `provision` runs in a state whose provider creates the server, with no server to reuse, only after `record pending` ran.
pub deploy_steps-Reserved :
    (perform : Perform) (st : DeployState) → Reserved false (run_steps perform deploy_steps st)
unfolding deploy_steps opening_steps k8s_steps box_steps closing_steps step equal run_steps
    no_provision
deploy_steps-Reserved perform =
    let rest = drop 8 deploy_steps in
    Reserved-others perform (take 6 deploy_steps) (drop 6 deploy_steps)
      (no_provision-All (take 6 deploy_steps) refl)
      (Reserved-provision perform rest
        (step (codes "record pending") (eff_record ∷ []) step_pending_recorded
          (λ st. not (creates_infrastructure st.provider) || st.reuse_box))
        (step (codes "provision") (eff_provider ∷ eff_record ∷ []) step_instance_created
          (λ _. false))
        refl refl (λ st h. ground (arith, h))
        (Reserved-others perform rest [] (no_provision-All rest refl) (λ _ _. tt)))
      false
