-- ===== src/App/Pipeline/Steps.antt =====
-- `deploySteps` of app/deploy_pipeline.go: the steps of a deploy in order, with the effects, the
-- checkpoint and the precondition of each.
use nuzur_cli.Base.{Bool, false, not, ◌&&◌, ◌||◌, List, [], ◌∷◌, ◌++◌, is_nil}
use nuzur_cli.Deploy.{
  creates_infrastructure, step_pending_recorded, step_instance_created, step_box_recorded,
  step_agent_paired, step_released, step_finalized,
}
use nuzur_cli.Text.{Text, codes}
use nuzur_cli.App.Pipeline.{
  DeployState, DeployStep, EffectLevel, effects, is_k8s, eff_local_fs, eff_record, eff_cloud,
  eff_box, eff_provider,
}

unfoldable pub step : Text → List EffectLevel → Text → (DeployState → Bool) → DeployStep
unfolding effects
step n levels c skip = record { name = n; effects = effects levels; checkpoint = c; skip = skip }

unfoldable pub opening_steps : List DeployStep
unfolding step
opening_steps =
    step (codes "resolve and configure") [] [] (λ _. false)
    ∷ step (codes "decide box") [] [] (λ _. false)
    ∷ step (codes "schema pre-flight") [] [] (λ st. st.skip_schema)
    ∷ step (codes "generate app") (eff_local_fs ∷ []) []
        (λ st. st.db_only || is_k8s st && st.release_only)
    ∷ step (codes "check cli release") [] [] (λ st. is_k8s st)
    ∷ step (codes "issue provisioning token") (eff_cloud ∷ []) [] (λ st. is_k8s st)
    ∷ step (codes "record pending") (eff_record ∷ []) step_pending_recorded
        (λ st. not (creates_infrastructure st.provider) || st.reuse_box)
    ∷ step (codes "provision") (eff_provider ∷ eff_record ∷ []) step_instance_created (λ _. false)
    ∷ step (codes "record box") (eff_record ∷ []) step_box_recorded (λ _. false)
    ∷ step (codes "report in progress") (eff_cloud ∷ []) [] (λ _. false)
    ∷ step (codes "provider firewall") (eff_provider ∷ []) []
        (λ st. not (creates_infrastructure st.provider) || is_nil st.instance_id)
    ∷ step (codes "ssh ping") [] [] (λ _. false)
    ∷ []

unfoldable pub k8s_steps : List DeployStep
unfolding step
k8s_steps =
    step (codes "resolve cluster") [] [] (λ st. not (is_k8s st))
    ∷ step (codes "write host config") (eff_box ∷ []) [] (λ st. not (is_k8s st))
    ∷ step (codes "stamp chart version") (eff_local_fs ∷ []) []
        (λ st. not (is_k8s st) || st.release_only)
    ∷ step (codes "commit and push") (eff_local_fs ∷ []) []
        (λ st. not (is_k8s st) || st.no_commit || st.release_only)
    ∷ step (codes "wait for ci") [] [] (λ st. not (is_k8s st) || st.no_wait || st.release_only)
    ∷ step (codes "resolve image") [] [] (λ st. not (is_k8s st))
    ∷ []

unfoldable pub box_steps : List DeployStep
unfolding step
box_steps =
    step (codes "copy source") (eff_box ∷ []) [] (λ st. st.db_only || is_k8s st)
    ∷ step (codes "bootstrap") (eff_box ∷ eff_cloud ∷ []) [] (λ st. is_k8s st)
    ∷ step (codes "wait for agent") (eff_cloud ∷ eff_record ∷ []) step_agent_paired
        (λ st. is_k8s st)
    ∷ step (codes "publish catalog") (eff_cloud ∷ []) [] (λ st. is_k8s st)
    ∷ step (codes "helm release") (eff_box ∷ eff_cloud ∷ eff_record ∷ []) step_released
        (λ st. not (is_k8s st))
    ∷ []

unfoldable pub closing_steps : List DeployStep
unfolding step
closing_steps =
    step (codes "apply schema") (eff_box ∷ eff_cloud ∷ []) []
      (λ st. st.skip_schema || is_k8s st && not st.from_connection)
    ∷ step (codes "read back front door") [] [] (λ st. is_k8s st)
    ∷ step (codes "read back cluster address") [] [] (λ st. not (is_k8s st))
    ∷ step (codes "finalize record") (eff_record ∷ []) step_finalized (λ _. false)
    ∷ step (codes "record deploy config") (eff_local_fs ∷ []) [] (λ _. false)
    ∷ step (codes "finalize revision") (eff_cloud ∷ []) [] (λ _. false)
    ∷ step (codes "report") [] [] (λ _. false)
    ∷ []

unfoldable pub deploy_steps : List DeployStep
unfolding opening_steps k8s_steps box_steps closing_steps
deploy_steps = opening_steps ++ (k8s_steps ++ (box_steps ++ (closing_steps)))
