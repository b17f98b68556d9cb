-- ===== src/Agent/Probes/Guarded.antt =====
-- When pg-schema-diff runs (agent/handler_pg_schema_plan.go).
use nuzur_cli.Base.{
  ◌≡◌, ◌≢◌, refl, Bool, true, false, not, ◌&&◌, List, [], Option, none, some, ◌⊎◌, inl, inr,
  Bool-cases, is_nil,
}
use nuzur_cli.Text.{Text, codes, equal}
use nuzur_cli.Agent.Connections.{Entry, find_by_uuid}
use nuzur_cli.Agent.Dsn.{pg_keyword_dsn}
use nuzur_cli.Agent.Probes.{
  PlanRequest, PgPlan, PlanTools, named_schema, plan_on, plan_for, schema_plan, ◌∷◌,
}

-- Two ways to compute a plan that agree for a schema with a name and an existing side.
abbrev pub Agree : PgPlan → PgPlan → Type 0
Agree f g =
    (base schema existing new : Text) (live : Bool)
    → schema ≢ []
    → (live ≡ true) ⊎ (existing ≢ [])
    → f base schema existing new live ≡ g base schema existing new live

named-ne : (schema : Text) → named_schema schema ≢ []
named-ne [] h = cc
named-ne (c ∷ s) h = cc

source-given :
    (live : Bool) (existing : Text)
    → (not live && is_nil existing) ≡ false
    → (live ≡ true) ⊎ (existing ≢ [])
source-given true existing h = inl refl
source-given false [] h = cc
source-given false (c ∷ s) h = inr (λ e. cc)

on-Agree :
    (t : PlanTools) (g : PgPlan) (r : PlanRequest) (dsn : Text ⊎ Text)
    → Agree t.compute g
    → plan_on t r dsn ≡ plan_on (record t { compute = g }) r dsn
unfolding plan_on
on-Agree t g r (inl e) h = refl
on-Agree t g r (inr base) h =
    elim (Bool-cases (not r.use_live_schema_source && is_nil r.existing_create_sql)) [
      | inl empty ↦ rw empty refl
      | inr given ↦ rw given (
          h base (named_schema r.schema) r.existing_create_sql r.new_create_sql
            r.use_live_schema_source (named-ne r.schema)
            (source-given r.use_live_schema_source r.existing_create_sql given))
    ]

for-Agree :
    (t : PlanTools) (g : PgPlan) (r : PlanRequest) (e : Option Entry)
    → Agree t.compute g
    → plan_for t r e ≡ plan_for (record t { compute = g }) r e
unfolding plan_for
for-Agree t g r none h = refl
for-Agree t g r (some e) h = elim (Bool-cases (not (equal e.driver (codes "postgres")))) [
  | inl other ↦ rw other refl
  | inr postgres ↦ elim (Bool-cases (is_nil e.dsn)) [
    | inl lost ↦ rw postgres (rw lost refl)
    | inr known ↦ rw postgres (rw known (on-Agree t g r (pg_keyword_dsn t.parse_url e.dsn) h))
  ]
]

-- A schema plan never depends on what pg-schema-diff would give for an existing side that is empty and
-- not the live database, nor for a schema without a name: such a run is not made.
pub schema_plan-Agree :
    (t : PlanTools) (g : PgPlan) (registry : List Entry) (r : PlanRequest)
    → Agree t.compute g
    → schema_plan t registry r ≡ schema_plan (record t { compute = g }) registry r
unfolding schema_plan
schema_plan-Agree t g registry r h = for-Agree t g r (find_by_uuid r.conn registry) h
