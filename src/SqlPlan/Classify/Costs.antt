-- ===== src/SqlPlan/Classify/Costs.antt =====
-- What the fold over the actions of an ALTER TABLE collects (sqlplan/plan.go).
use nuzur_cli.Base.{
  ◌≡◌, refl, sym, ap, ◌∙◌, inl, inr, List, [], ◌∷◌, ◌++◌, map, map-append, arith, append-nil,
  append_assoc, select, select-cons, Bool-cases,
}
use nuzur_cli.SqlPlan.Classify.{add_action, add_actions, action_list, Severity}
use nuzur_cli.SqlPlan.Classify.Action.{Labelled, classify_alter_action}
use nuzur_cli.SqlPlan.Classify.Actions.{split_top_level}
use nuzur_cli.SqlPlan.Types.{Severity, Classified, severities, costly}
use nuzur_cli.Text.{Text, trim_space}

-- What each action of the list costs on its own.
abbrev pub cost : Text → Severity
cost action = (classify_alter_action (trim_space action)).severity

abbrev pub costs : Text → List Severity
costs norm = map cost (split_top_level (action_list norm))

module _ (table : Text) (out : Classified) (action : Labelled) where
  add_action-severities :
      severities (add_action table out action).hazards
      ≡ severities out.hazards ++ select costly (action.severity ∷ [])
  unfolding add_action
  add_action-severities = elim (Bool-cases (costly action.severity)) [
    | inl costs ↦ rw (costs, map-append)
    | inr free ↦ rw (free, append-nil) (ground arith)
  ]

  add_action-severity : (add_action table out action).severity ≡ out.severity
  unfolding add_action
  add_action-severity = ground arith

pub add_actions-severities :
    (table : Text) (out : Classified) (actions : List Text)
    → severities (add_actions table out actions).hazards
      ≡ severities out.hazards ++ select costly (map cost actions)
unfolding add_actions
add_actions-severities table out [] = sym (append-nil _)
add_actions-severities table out (a ∷ actions) =
    let action = classify_alter_action (trim_space a) in
    add_actions-severities table (add_action table out action) actions
    ∙ rw (add_action-severities table out action, append_assoc)
        (ap (λ t. severities out.hazards ++ t) (select-cons costly (cost a) (map cost actions)))

-- The fold leaves the severity of the statement alone.
pub add_actions-severity :
    (table : Text) (out : Classified) (actions : List Text)
    → (add_actions table out actions).severity ≡ out.severity
unfolding add_actions
add_actions-severity table out [] = refl
add_actions-severity table out (a ∷ actions) =
    let action = classify_alter_action (trim_space a) in
    add_actions-severity table (add_action table out action) actions
    ∙ add_action-severity table out action
