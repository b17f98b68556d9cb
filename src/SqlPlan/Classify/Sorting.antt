-- ===== src/SqlPlan/Classify/Sorting.antt =====
-- The stable sort of the hazards (`classifyAlterTable` of sqlplan/plan.go).
use nuzur_cli.Base.{
  ℕ, ◌≤◌, ◌≡◌, refl, ◌∙◌, inl, inr, Bool, List, [], ◌∷◌, ltb, ◌==◌, arith, select, All, Bool-cases,
  ltb→lt, suc, count_if, ap, if◌then◌else◌, ◌+◌,
}
use nuzur_cli.SqlPlan.Classify.{insert_hazard, sort_hazards, Severity}
use nuzur_cli.SqlPlan.Types.{rank, Hazard, severities, costly, severity_none}

-- Every hazard ranks at least as high as all that follow it.
abbrev pub IsWorstFirst : List Hazard → Type 0
IsWorstFirst [] = Unit
IsWorstFirst (h ∷ hs) = All (λ x. rank x.severity ≤ rank h.severity) hs × IsWorstFirst hs

abbrev pub has_rank : ℕ → Hazard → Bool
has_rank r h = rank h.severity == r

All-le_trans :
    (m n : ℕ) (hs : List Hazard)
    → m ≤ n
    → All (λ x. rank x.severity ≤ m) hs
    → All (λ x. rank x.severity ≤ n) hs
All-le_trans m n [] h a = tt
All-le_trans m n (x ∷ hs) h a = (omega arith, All-le_trans m n hs h a.1)

module _ {ℓ} (P : Hazard → Type ℓ) where
  insert_hazard-All : (h : Hazard) (hs : List Hazard) → P h → All P hs → All P (insert_hazard h hs)
  unfolding insert_hazard
  insert_hazard-All h [] p a = (p, tt)
  insert_hazard-All h (x ∷ hs) p a = elim (Bool-cases (ltb (rank h.severity) (rank x.severity))) [
    | inl worse ↦ rw worse (a.0, insert_hazard-All h hs p a.1)
    | inr place ↦ rw place (p, a)
  ]

  pub sort_hazards-All : (hs : List Hazard) → All P hs → All P (sort_hazards hs)
  unfolding sort_hazards
  sort_hazards-All [] a = tt
  sort_hazards-All (h ∷ hs) a = insert_hazard-All h (sort_hazards hs) a.0 (sort_hazards-All hs a.1)

  All-insert_hazard : (h : Hazard) (hs : List Hazard) → All P (insert_hazard h hs) → P h × All P hs
  unfolding insert_hazard
  All-insert_hazard h [] a = (a.0, tt)
  All-insert_hazard h (x ∷ hs) a = elim (Bool-cases (ltb (rank h.severity) (rank x.severity))) [
    | inl worse ↦
        let a' = (rw worse at a) in let (p, more) = All-insert_hazard h hs a'.1 in (p, (a'.0, more))
    | inr place ↦ rw place at a
  ]

  pub All-sort_hazards : (hs : List Hazard) → All P (sort_hazards hs) → All P hs
  unfolding sort_hazards
  All-sort_hazards [] a = tt
  All-sort_hazards (h ∷ hs) a =
      let (p, more) = All-insert_hazard h (sort_hazards hs) a in (p, All-sort_hazards hs more)

insert_hazard-IsWorstFirst :
    (h : Hazard) (hs : List Hazard) → IsWorstFirst hs → IsWorstFirst (insert_hazard h hs)
unfolding insert_hazard
insert_hazard-IsWorstFirst h [] w = (tt, tt)
insert_hazard-IsWorstFirst h (x ∷ hs) w =
    elim (Bool-cases (ltb (rank h.severity) (rank x.severity))) [
      | inl worse ↦ rw worse (
        insert_hazard-All (λ y. rank y.severity ≤ rank x.severity) h hs
            (omega (arith, ltb→lt _ _ worse)) w.0,
        insert_hazard-IsWorstFirst h hs w.1,
      )
      | inr place ↦
          let above : rank x.severity ≤ rank h.severity = ground arith in
          rw place ((above, All-le_trans (rank x.severity) (rank h.severity) hs above w.0), w)
    ]

-- Inserting puts the hazard in front of all others of its rank.
insert_hazard-select :
    (r : ℕ) (h : Hazard) (hs : List Hazard)
    → select (has_rank r) (insert_hazard h hs) ≡ select (has_rank r) (h ∷ hs)
unfolding insert_hazard
insert_hazard-select r h [] = refl
insert_hazard-select r h (x ∷ hs) = elim (Bool-cases (ltb (rank h.severity) (rank x.severity))) [
  | inl worse ↦ ground (arith, insert_hazard-select r h hs)
  | inr place ↦ rw place refl
]

pub sort_hazards-IsWorstFirst : (hs : List Hazard) → IsWorstFirst (sort_hazards hs)
unfolding sort_hazards
sort_hazards-IsWorstFirst [] = tt
sort_hazards-IsWorstFirst (h ∷ hs) =
    insert_hazard-IsWorstFirst h (sort_hazards hs) (sort_hazards-IsWorstFirst hs)

-- The sort of the hazards keeps those of each rank, in their order.
pub sort_hazards-select :
    (r : ℕ) (hs : List Hazard) → select (has_rank r) (sort_hazards hs) ≡ select (has_rank r) hs
unfolding sort_hazards
sort_hazards-select r [] = refl
sort_hazards-select r (h ∷ hs) =
    insert_hazard-select r h (sort_hazards hs) ∙ rw (sort_hazards-select r hs)

abbrev pub count_rank : ℕ → List Severity → ℕ
count_rank r = count_if (λ sev. rank sev == r)

insert_hazard-count :
    (r : ℕ) (h : Hazard) (hs : List Hazard)
    → count_rank r (severities (insert_hazard h hs)) ≡ count_rank r (severities (h ∷ hs))
unfolding insert_hazard
insert_hazard-count r h [] = refl
insert_hazard-count r h (x ∷ hs) = ground (arith, insert_hazard-count r h hs)

pub sort_hazards-count :
    (r : ℕ) (hs : List Hazard)
    → count_rank r (severities (sort_hazards hs)) ≡ count_rank r (severities hs)
unfolding sort_hazards
sort_hazards-count r [] = refl
sort_hazards-count r (h ∷ hs) =
    omega (arith, insert_hazard-count r h (sort_hazards hs), sort_hazards-count r hs)

pub select-costly-count :
    (r : ℕ) (sevs : List Severity)
    → count_rank (suc r) (select costly sevs) ≡ count_rank (suc r) sevs
select-costly-count r [] = refl
select-costly-count r (severity_none ∷ sevs) = ground (arith, select-costly-count r sevs)
select-costly-count r (sev ∷ sevs) =
    ap (λ (n : ℕ). (if rank sev == suc r then 1 else 0) + n) (select-costly-count r sevs)
