-- ===== src/SqlPlan/Classify/DropsColumn.antt =====
-- The actions of an ALTER TABLE that drop a column (sqlplan/plan.go).
use nuzur_cli.SqlPlan.Classify.Action.{
  classify_alter_action, classify_drop, classify_other, classify_alter_column,
}
use nuzur_cli.SqlPlan.Words.Leads.{Leads, has_prefix_word_iff}
use nuzur_cli.Base.{◌≡◌, true, arith, inl, inr, false, refl, Bool-cases}
use nuzur_cli.SqlPlan.Classify.{
  classify_alter_action, classify_drop, classify_other, classify_alter_column,
}
use nuzur_cli.SqlPlan.Types.{data_loss}
use nuzur_cli.SqlPlan.Words.{has_prefix_word}
use nuzur_cli.Text.{Text, codes, has_prefix}

-- The action drops a column: MySQL's bare DROP too, if no other thing is named that can be dropped.
pub record DropsColumn (action : Text) : Type 0 where
  pub drops : Leads (codes "DROP") action
  pub no_constraint : ¬ Leads (codes "DROP CONSTRAINT") action
  pub no_foreign_key : ¬ Leads (codes "DROP FOREIGN KEY") action
  pub no_check : ¬ Leads (codes "DROP CHECK") action
  pub no_primary_key : ¬ Leads (codes "DROP PRIMARY KEY") action
  pub no_key : ¬ Leads (codes "DROP KEY") action
  pub no_index : ¬ Leads (codes "DROP INDEX") action

module _ (a : Text) where
  not_lead : (phrase : Text) → has_prefix_word a phrase ≡ false → ¬ Leads phrase a
  not_lead phrase e l = cc ((has_prefix_word_iff a phrase).1 l)

  -- The long spelling is one of the bare form.
  drop_column-tests :
      has_prefix_word a (codes "DROP COLUMN") ≡ true
      → (has_prefix_word a (codes "DROP") ≡ true)
        × (has_prefix_word a (codes "DROP CONSTRAINT") ≡ false)
        × (has_prefix_word a (codes "DROP FOREIGN KEY") ≡ false)
        × (has_prefix_word a (codes "DROP CHECK") ≡ false)
        × (has_prefix_word a (codes "DROP PRIMARY KEY") ≡ false)
        × (has_prefix_word a (codes "DROP KEY") ≡ false)
        × (has_prefix_word a (codes "DROP INDEX") ≡ false)
  unfolding has_prefix_word has_prefix
  drop_column-tests h =
      let l = (has_prefix_word_iff a (codes "DROP COLUMN")).0 h in
      rw l.splits (refl, refl, refl, refl, refl, refl, refl)

  abbrev BareDrop : Type 0
  BareDrop =
      (has_prefix_word a (codes "DROP") ≡ true)
      × (has_prefix_word a (codes "DROP CONSTRAINT") ≡ false)
      × (has_prefix_word a (codes "DROP FOREIGN KEY") ≡ false)
      × (has_prefix_word a (codes "DROP CHECK") ≡ false)
      × (has_prefix_word a (codes "DROP PRIMARY KEY") ≡ false)
      × (has_prefix_word a (codes "DROP KEY") ≡ false)
      × (has_prefix_word a (codes "DROP INDEX") ≡ false)

  action-BareDrop : (classify_alter_action a).severity ≡ data_loss → BareDrop
  unfolding classify_alter_action classify_drop classify_other classify_alter_column
  action-BareDrop h = ground (arith, drop_column-tests)

  BareDrop-action : BareDrop → (classify_alter_action a).severity ≡ data_loss
  unfolding classify_alter_action classify_drop
  BareDrop-action h = ground arith

  pub action-DropsColumn : (classify_alter_action a).severity ≡ data_loss → DropsColumn a
  action-DropsColumn h =
      let b = action-BareDrop h in
      record {
        drops = (has_prefix_word_iff a (codes "DROP")).0 b.0;
        no_constraint = not_lead (codes "DROP CONSTRAINT") b.1;
        no_foreign_key = not_lead (codes "DROP FOREIGN KEY") b.2;
        no_check = not_lead (codes "DROP CHECK") b.3;
        no_primary_key = not_lead (codes "DROP PRIMARY KEY") b.4;
        no_key = not_lead (codes "DROP KEY") b.5;
        no_index = not_lead (codes "DROP INDEX") b.6;
      }

  not_tested : (phrase : Text) → ¬ Leads phrase a → has_prefix_word a phrase ≡ false
  not_tested phrase n = elim (Bool-cases (has_prefix_word a phrase)) [
    | inl e ↦ absurd (n ((has_prefix_word_iff a phrase).0 e))
    | inr e ↦ e
  ]

  pub DropsColumn-action : DropsColumn a → (classify_alter_action a).severity ≡ data_loss
  DropsColumn-action d = BareDrop-action (
    (has_prefix_word_iff a (codes "DROP")).1 d.drops,
    not_tested (codes "DROP CONSTRAINT") d.no_constraint,
    not_tested (codes "DROP FOREIGN KEY") d.no_foreign_key,
    not_tested (codes "DROP CHECK") d.no_check,
    not_tested (codes "DROP PRIMARY KEY") d.no_primary_key,
    not_tested (codes "DROP KEY") d.no_key,
    not_tested (codes "DROP INDEX") d.no_index,
  )
