-- ===== src/SqlPlan/Classify/Worst.antt =====
-- The hazards of an ALTER TABLE and its summary (`classifyAlterTable` of sqlplan/plan.go).
use nuzur_cli.Base.{
  ℕ, ◌≡◌, suc, List, ◌≢◌, ◌∷◌, [], ap, ◌∙◌, arith, All, ◌≤◌, refl, ◌↔◌, select, subst, sym, Bool,
  if◌then◌else◌, true, false,
}
use nuzur_cli.SqlPlan.Classify.{
  classify_alter_table, Classified, insert_hazard, object_after, sort_hazards, Hazard,
  severity_none, codes, add_actions, other, split_top_level, action_list, summarize, rank, single,
  classify, Kind, classify_norm, normalize, has_prefix_word,
}
use nuzur_cli.SqlPlan.Classify.Costs.{costs, add_actions-severities, add_actions-severity}
use nuzur_cli.SqlPlan.Classify.Sorting.{
  IsWorstFirst, count_rank, sort_hazards-count, select-costly-count, All-sort_hazards,
  sort_hazards-All, sort_hazards-IsWorstFirst,
}
use nuzur_cli.SqlPlan.Types.{Severity, severities, costly}
use nuzur_cli.Text.{Text}

-- The fold of `classifyAlterTable` before its hazards are sorted.
abbrev folded : Text → Classified
folded norm =
    let table = object_after norm (codes "ALTER TABLE") in
    add_actions table
      (record { kind = other; severity = severity_none; object = table; reason = []; hazards = [] })
      (split_top_level (action_list norm))

insert_hazard-ne-nil : (h : Hazard) (hs : List Hazard) → insert_hazard h hs ≢ []
unfolding insert_hazard
insert_hazard-ne-nil h [] = ground arith
insert_hazard-ne-nil h (x ∷ hs) = ground arith

summarize_ne_nil : (out : Classified) (hs : List Hazard) → hs ≢ [] → (summarize out hs).hazards ≡ hs
summarize_ne_nil out [] h = absurd (h refl)
summarize_ne_nil out (x ∷ hs) h = refl

summarize-hazards :
    (out : Classified) (hs : List Hazard)
    → out.hazards ≡ hs
    → (summarize out (sort_hazards hs)).hazards ≡ sort_hazards hs
unfolding sort_hazards
summarize-hazards out [] e = e
summarize-hazards out (h ∷ hs) e =
    summarize_ne_nil out (insert_hazard h (sort_hazards hs))
      (insert_hazard-ne-nil h (sort_hazards hs))

classify_alter_table_lem :
    (norm : Text)
    → classify_alter_table norm ≡ summarize (folded norm) (sort_hazards (folded norm).hazards)
unfolding classify_alter_table
classify_alter_table_lem norm = refl

classify_alter_table-hazards :
    (norm : Text) → (classify_alter_table norm).hazards ≡ sort_hazards (folded norm).hazards
classify_alter_table-hazards norm =
    rw classify_alter_table_lem (summarize-hazards (folded norm) (folded norm).hazards refl)

-- For each rank above none, an ALTER TABLE has as many hazards of that rank as it has actions of
-- that cost.
pub classify_alter_table-count :
    (norm : Text) (r : ℕ)
    → count_rank (suc r) (severities (classify_alter_table norm).hazards)
      ≡ count_rank (suc r) (costs norm)
classify_alter_table-count norm r =
    ap (λ hs. count_rank (suc r) (severities hs)) (classify_alter_table-hazards norm)
    ∙ sort_hazards-count (suc r) (folded norm).hazards
    ∙ ap (count_rank (suc r)) (add_actions-severities _ _ (split_top_level (action_list norm)))
    ∙ select-costly-count r (costs norm)

-- The summary is that of the first hazard, which is the worst; with no hazard the severity is none.
abbrev pub Summarizes : Classified → List Hazard → Type 0
Summarizes c [] = c.severity ≡ severity_none
Summarizes c (h ∷ hs) =
    (c.kind ≡ h.kind)
    × (c.severity ≡ h.severity)
    × (c.object ≡ h.object)
    × (c.reason ≡ h.reason)
    × (h.severity ≢ severity_none)
    × IsWorstFirst (h ∷ hs)

summarize-Summarizes :
    (out : Classified) (hs : List Hazard)
    → out.severity ≡ severity_none
    → All (λ h. h.severity ≢ severity_none) hs
    → IsWorstFirst hs
    → Summarizes (summarize out hs) hs
summarize-Summarizes out [] e a w = e
summarize-Summarizes out (h ∷ hs) e a w = (refl, refl, refl, refl, a.0, w)

All-severities :
    (P : Severity → Type 0) (hs : List Hazard) → All P (severities hs) ↔ All (λ h. P h.severity) hs
All-severities P [] = (λ a. a, λ a. a)
All-severities P (h ∷ hs) =
    let (to, from) = All-severities P hs in (λ a. (a.0, to a.1), λ a. (a.0, from a.1))

All-select-costly :
    (n : ℕ) (sevs : List Severity)
    → All (λ sev. rank sev ≤ n) (select costly sevs)
    → All (λ sev. rank sev ≤ n) sevs
All-select-costly n [] a = tt
All-select-costly n (severity_none ∷ sevs) a = (omega arith, All-select-costly n sevs a)
All-select-costly n (sev ∷ sevs) a = (a.0, All-select-costly n sevs a.1)

select-costly-ne_none :
    (sevs : List Severity) → All (λ sev. sev ≢ severity_none) (select costly sevs)
select-costly-ne_none [] = tt
select-costly-ne_none (severity_none ∷ sevs) = select-costly-ne_none sevs
select-costly-ne_none (sev ∷ sevs) = (ground arith, select-costly-ne_none sevs)

module _ (norm : Text) where
  folded-severities : severities (folded norm).hazards ≡ select costly (costs norm)
  folded-severities = add_actions-severities _ _ (split_top_level (action_list norm))

  -- An ALTER TABLE is summarized by the worst of its hazards, and only by one that costs something.
  pub classify_alter_table-Summarizes :
      Summarizes (classify_alter_table norm) (classify_alter_table norm).hazards
  classify_alter_table-Summarizes =
      rw (classify_alter_table-hazards norm, classify_alter_table_lem norm)
        (summarize-Summarizes (folded norm) (sort_hazards (folded norm).hazards)
          (add_actions-severity _ _ (split_top_level (action_list norm)))
          (sort_hazards-All _ _ (
            (All-severities (λ sev. sev ≢ severity_none) (folded norm).hazards).0
              (rw folded-severities (select-costly-ne_none (costs norm)))))
          (sort_hazards-IsWorstFirst (folded norm).hazards))

Summarizes-worst :
    (c : Classified) (hs : List Hazard)
    → Summarizes c hs
    → All (λ h. rank h.severity ≤ rank c.severity) hs
Summarizes-worst c [] s = tt
Summarizes-worst c (h ∷ hs) s =
    subst (λ sev. All (λ x. rank x.severity ≤ rank sev) (h ∷ hs)) (sym s.1) (omega arith, s.5.0)

-- No action of an ALTER TABLE ranks higher than the statement itself.
pub classify_alter_table-worst :
    (norm : Text) → All (λ sev. rank sev ≤ rank (classify_alter_table norm).severity) (costs norm)
classify_alter_table-worst norm = All-select-costly _ (costs norm) (
    rw (← folded-severities norm) (
      (All-severities (λ sev. rank sev ≤ rank (classify_alter_table norm).severity)
          (folded norm).hazards).1
        (All-sort_hazards _ _ (
          rw (← classify_alter_table-hazards norm) (
            Summarizes-worst (classify_alter_table norm) _
              (classify_alter_table-Summarizes norm))))))

pub record IsSummary (c : Classified) : Type 0 where
  pub summarizes : Summarizes c c.hazards

single-IsSummary : (k : Kind) (sev : Severity) (obj why : Text) → IsSummary (single k sev obj why)
unfolding single
single-IsSummary k severity_none obj why = record { summarizes = refl }
single-IsSummary k sev obj why = record {
  summarizes = (refl, refl, refl, refl, ground arith, (tt, tt));
}

if-IsSummary :
    (b : Bool) (c d : Classified) → IsSummary c → IsSummary d → IsSummary (if b then c else d)
if-IsSummary true c d h k = h
if-IsSummary false c d h k = k

classify_norm-IsSummary : (norm : Text) → IsSummary (classify_norm norm)
unfolding classify_norm
classify_norm-IsSummary norm =
    if-IsSummary (has_prefix_word norm (codes "CREATE TABLE")) _ _ (single-IsSummary _ _ _ _) (
      if-IsSummary (has_prefix_word norm (codes "CREATE UNIQUE INDEX")) _ _
        (single-IsSummary _ _ _ _)
        (if-IsSummary (has_prefix_word norm (codes "CREATE INDEX")) _ _ (single-IsSummary _ _ _ _) (
          if-IsSummary (has_prefix_word norm (codes "CREATE SCHEMA")) _ _ (single-IsSummary _ _ _ _)
            (if-IsSummary (has_prefix_word norm (codes "DROP TABLE")) _ _ (single-IsSummary _ _ _ _)
              (if-IsSummary (has_prefix_word norm (codes "DROP DATABASE")) _ _
                (single-IsSummary _ _ _ _)
                (if-IsSummary (has_prefix_word norm (codes "DROP SCHEMA")) _ _
                  (single-IsSummary _ _ _ _)
                  (if-IsSummary (has_prefix_word norm (codes "TRUNCATE")) _ _
                    (single-IsSummary _ _ _ _)
                    (if-IsSummary (has_prefix_word norm (codes "DROP INDEX")) _ _
                      (single-IsSummary _ _ _ _)
                      (if-IsSummary (has_prefix_word norm (codes "ALTER TABLE")) _ _
                        (record { summarizes = classify_alter_table-Summarizes norm })
                        (single-IsSummary _ _ _ _))))))))))

-- Whatever the statement, a statement with no hazard has no cost; else its hazards stand worst
-- first, the first one costs something, and its kind, severity, object and reason are those of the
-- statement.
pub classify-IsSummary : (sql : Text) → IsSummary (classify sql)
unfolding classify
classify-IsSummary sql = classify_norm-IsSummary (normalize sql)
