-- ===== src/SqlPlan/Plan/Labels.antt =====
-- The statements of a plan and their labels (sqlplan/plan.go).
use nuzur_cli.SqlPlan.Normalize.{normalize}
use nuzur_cli.SqlPlan.Classify.DataLoss.{DeletesData, classify-data_loss_iff}
use nuzur_cli.SqlPlan.Classify.{classify}
use nuzur_cli.SqlPlan.Split.{split}
use nuzur_cli.Base.{
  ℕ, ◌+◌, ◌≡◌, ◌↔◌, List, [], ◌∷◌, true, arith, Any, not, refl, is_nil, select, Bool-cases, false,
  inl, inr,
}
use nuzur_cli.SqlPlan.Plan.{
  statement_of, label_all, analyze, has_destructive, Severity, classify, split, is_data_loss,
  data_loss, destructive_statement, normalize, destructive,
}
use nuzur_cli.SqlPlan.Types.{Engine, Statement, Severity, is_data_loss, data_loss}
use nuzur_cli.Text.{Text}

-- The statements are the texts, numbered from `n + 1` on, each with the labels of its own text.
abbrev pub Numbered : ℕ → List Text → List Statement → Type 0
Numbered n [] [] = Unit
Numbered n (w ∷ ws) (s ∷ ss) =
    (s.index ≡ n + 1)
    × (s.sql ≡ w)
    × (s.kind ≡ (classify w).kind)
    × (s.severity ≡ (classify w).severity)
    × (s.object ≡ (classify w).object)
    × (s.reason ≡ (classify w).reason)
    × (s.hazards ≡ (classify w).hazards)
    × Numbered (n + 1) ws ss
Numbered n _ _ = ⊥

label_all-Numbered : (n : ℕ) (ws : List Text) → Numbered n ws (label_all n ws)
unfolding label_all
label_all-Numbered n [] = tt
label_all-Numbered n (w ∷ ws) =
    (refl, refl, refl, refl, refl, refl, refl, label_all-Numbered (n + 1) ws)

-- `Analyze` returns the statements of `Split` in order, numbered from one, each with the labels of
-- its own text, and nothing else.
pub analyze-Numbered :
    (apply_sql : Text) (engine : Engine)
    → Numbered 0 (split apply_sql engine) (analyze apply_sql engine).statements
unfolding analyze
analyze-Numbered apply_sql engine = label_all-Numbered 0 (split apply_sql engine)

is_data_loss-eq : (sev : Severity) → (is_data_loss sev ≡ true) ↔ (sev ≡ data_loss)
is_data_loss-eq sev = ground arith

absurd_data_loss : (sev : Severity) → sev ≡ data_loss → is_data_loss sev ≡ false → ⊥
absurd_data_loss sev e h = ground arith

label_all-destructive :
    (n : ℕ) (ws : List Text)
    → (not (is_nil (select destructive_statement (label_all n ws))) ≡ true)
      ↔ Any (λ w. DeletesData (normalize w)) ws
unfolding label_all statement_of
label_all-destructive n [] = (λ e. cc, λ a. absurd a)
label_all-destructive n (w ∷ ws) =
    let (to, from) = label_all-destructive (n + 1) ws in
    let (loses, lost) = classify-data_loss_iff w in
    elim (Bool-cases (is_data_loss (classify w).severity)) [
      | inl loss ↦ (λ e. inl (loses ((is_data_loss-eq _).0 loss)), λ a. rw loss)
      | inr other ↦ (
        λ e. inr (to (rw other at e)),
        λ a. rw other (elim a [
          | inl d ↦ absurd (absurd_data_loss _ (lost d) other)
          | inr later ↦ from later
        ]),
      )
    ]

-- A plan has destructive statements exactly if the normal form of some statement that `Split`
-- returns deletes data.
pub analyze-has_destructive :
    (apply_sql : Text) (engine : Engine)
    → (has_destructive (analyze apply_sql engine) ≡ true)
      ↔ Any (λ w. DeletesData (normalize w)) (split apply_sql engine)
unfolding analyze has_destructive destructive
analyze-has_destructive apply_sql engine = label_all-destructive 0 (split apply_sql engine)
