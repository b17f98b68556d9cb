-- ===== src/App/Gate/Safety.antt =====
-- The answers that the gate gives (app/deploy_schema_gate.go).
use nuzur_cli.SqlPlan.Plan.Labels.{analyze-has_destructive}
use nuzur_cli.ExtensionRun.Poll.Invariant.{poll-sent, poll_keeps}
use nuzur_cli.SqlPlan.Split.{split}
use nuzur_cli.SqlPlan.Normalize.{normalize}
use nuzur_cli.SqlPlan.Classify.DataLoss.{DeletesData}
use nuzur_cli.ExtensionRun.Poll.{
  StepOutcome, StepPrompt, StepDecision, outcome, Session, poll_once, answer, Decider, Report,
  confirmation, open_session, contains,
}
use mathlib.Core.Option.{some-injective, Option}
use nuzur_cli.Base.{
  ◌||◌, ◌≡◌, true, false, arith, Bool, ◌↔◌, Any, ◌⊎◌, some, List, sym, All, Option, ◌∙◌, ap,
  Bool-cases, inl, inr, All-append, none,
}
use nuzur_cli.App.Gate.{
  schema_apply_decider, decide_schema_apply, track, sql_push_run, no_gate, Bool, GateResult,
  StepPrompt, StepDecision, some, Decider, Session, List, Report, confirms, open_session,
}
use nuzur_cli.SqlPlan.Plan.{analyze, has_destructive}
use nuzur_cli.SqlPlan.Types.{Engine, Plan}

-- The decision confirms exactly if it is authorized or the plan has no destructive statement.
pub decide_schema_apply_iff :
    (p : Plan) (allow : Bool)
    → ((decide_schema_apply p allow).confirm ≡ true)
      ↔ ((has_destructive p ≡ false) ⊎ (allow ≡ true))
unfolding decide_schema_apply has_destructive
decide_schema_apply_iff p allow = ground arith

-- The answer declines, or no statement of the migration that it was shown deletes data.
abbrev pub Harmless : Engine → StepOutcome → Type 0
Harmless engine o =
    (o.confirmed ≡ false) ⊎ (¬ Any (λ w. DeletesData (normalize w)) (split o.prompt.content engine))

decider-decision :
    (engine : Engine) (allow : Bool) (out : GateResult) (prompt : StepPrompt)
    → (schema_apply_decider engine allow out prompt).1
      ≡ some (decide_schema_apply (analyze prompt.content engine) allow)
unfolding schema_apply_decider
decider-decision engine allow out prompt = ground arith

decider-Harmless :
    (engine : Engine) (state : GateResult × Bool) (prompt : StepPrompt) (d : StepDecision)
    → (track (schema_apply_decider engine false) state prompt).1 ≡ some d
    → Harmless engine (outcome prompt d)
unfolding track
decider-Harmless engine (out, issued) prompt d e =
    let p = analyze prompt.content engine in
    let made = some-injective _ _ (sym (decider-decision engine false out prompt) ∙ e) in
    elim (Bool-cases d.confirm) [
      | inr declined ↦ inl declined
      | inl accepted ↦ inr (λ deletes.
          let confirmed =
            (decide_schema_apply_iff p false).0 (ap (λ x. x.confirm) made ∙ accepted) in
          let harmful = (analyze-has_destructive prompt.content engine).1 deletes in ground arith)
    ]

-- Without authorization no answer that a run of SQL push sends confirms a migration of which the normal
-- form of some statement deletes data, whatever the server reports.
pub unauthorized-Harmless :
    (engine : Engine) (reached : Bool) (reports : List Report)
    → All
        (Harmless engine)
        (sql_push_run (schema_apply_decider engine false) no_gate reached reports).0.sent
unfolding sql_push_run
unauthorized-Harmless engine false reports = tt
unauthorized-Harmless engine true reports =
    poll-sent (track (schema_apply_decider engine false)) (Harmless engine)
      (decider-Harmless engine) reports (open_session (no_gate, false)) tt

-- Once an answer confirmed, the progress says so.
abbrev IsTracked : Session (GateResult × Bool) → Type 0
IsTracked s = s.state.1 ≡ false → All (λ o. o.confirmed ≡ false) s.sent

answer-IsTracked :
    (s : Session (GateResult × Bool)) (prompt : StepPrompt) (accepted : Bool)
    (decided : GateResult × Option StepDecision)
    → IsTracked s
    → IsTracked (answer s prompt accepted (decided.0, confirms decided.1 || s.state.1) decided.1).0
unfolding answer
answer-IsTracked s prompt accepted (g, none) t e = t e
answer-IsTracked s prompt true (g, some d) t e =
    All-append _ s.sent _ (t (ground arith)) (ground arith, tt)
answer-IsTracked s prompt false (g, some d) t e =
    All-append _ s.sent _ (t (ground arith)) (ground arith, tt)

poll_once-IsTracked :
    (decide : Decider GateResult) (s : Session (GateResult × Bool)) (r : Report)
    → IsTracked s
    → IsTracked (poll_once (track decide) s r).0
unfolding poll_once track
poll_once-IsTracked decide s (confirmation prompt accepted) t =
    elim (Bool-cases (contains prompt.step_identifier s.submitted)) [
      | inl again ↦ rw (again, poll_once) t
      | inr new ↦
          rw (new, poll_once) (answer-IsTracked s prompt accepted (decide s.state.0 prompt) t)
    ]
poll_once-IsTracked decide s _ t = t

-- If the progress of a run records no confirmation, then no answer that the run sent confirmed
-- anything, whatever the decider and the reports.
pub sql_issued-tracks :
    (decide : Decider GateResult) (reached : Bool) (reports : List Report)
    → (sql_push_run decide no_gate reached reports).0.state.1 ≡ false
    → All (λ o. o.confirmed ≡ false) (sql_push_run decide no_gate reached reports).0.sent
unfolding sql_push_run
sql_issued-tracks decide false reports e = tt
sql_issued-tracks decide true reports e =
    poll_keeps (track decide) IsTracked (poll_once-IsTracked decide) reports
      (open_session (no_gate, false)) (λ e. tt) e
