-- ===== src/SqlPlan/Render/Atomic.antt =====
-- When a migration is applied as one unit (sqlplan/render.go).
use nuzur_cli.Base.{
  ◌≡◌, ℕ, suc, sym, ◌∙◌, Bool-cases, inl, inr, ◌↔◌, ◌==◌, true, false, [], ◌∷◌, List, All, length,
  arith, refl,
}
use nuzur_cli.SqlPlan.Types.{Engine, Plan, Statement, engine_postgres}
use nuzur_cli.SqlPlan.Normalize.{normalize}
use nuzur_cli.SqlPlan.Plan.{
  mentions, indices_mentioning, non_transactional_keywords, non_transactional_statements,
}
use nuzur_cli.SqlPlan.Render.{transactional}

-- No statement has a construct that Postgres refuses in a transaction.
abbrev pub NoneForced : List Statement → Type 0
NoneForced = All (λ s. mentions (normalize s.sql) non_transactional_keywords ≡ false)

suc_not_zero : (xs : List ℕ) → ((suc (length xs)) == 0) ≡ true → ⊥
suc_not_zero xs e = ground arith

true_not_false : true ≡ false → ⊥
true_not_false e = cc

indices_mentioning_iff :
    (ss : List Statement) → ((length (indices_mentioning ss) == 0) ≡ true) ↔ NoneForced ss
unfolding indices_mentioning
indices_mentioning_iff [] = (λ e. tt, λ a. refl)
indices_mentioning_iff (s ∷ ss) =
    let (to, from) = indices_mentioning_iff ss in
    elim (Bool-cases (mentions (normalize s.sql) non_transactional_keywords)) [
      | inl hit ↦ (
        λ e. absurd (suc_not_zero (indices_mentioning ss) (rw hit at e)),
        λ a. absurd (true_not_false (sym hit ∙ a.0)),
      )
      | inr miss ↦ (λ e. (miss, to (rw miss at e)), λ a. rw miss (from a.1))
    ]

-- A plan is transactional exactly on Postgres, when none of its statements has a construct that
-- Postgres refuses in a transaction.
pub transactional_iff :
    (p : Plan) (engine : Engine)
    → (transactional p engine ≡ true) ↔ ((engine ≡ engine_postgres) × NoneForced p.statements)
unfolding transactional non_transactional_statements
transactional_iff p engine = ground (arith, indices_mentioning_iff p.statements)
