-- ===== src/App/Targeting/Picks.antt =====
-- Which record the loops over the records pick.
use nuzur_cli.Base.{
  ℕ, ◌≤◌, ◌≡◌, refl, Bool, true, false, List, [], ◌∷◌, Option, none, some, All, Any, ◌⊎◌, inl, inr,
  arith, Bool-cases, ltb, ltb→lt,
}
use nuzur_cli.Deploy.{Deployment}
use nuzur_cli.Text.{Text}
use nuzur_cli.App.Targeting.{
  newer, pick_from, is_managed, is_prior, pick_managed_box, pick_prior_deployment,
}

-- No record passes the test.
abbrev pub NonePasses : (Deployment → Bool) → List Deployment → Type 0
NonePasses p ds = All (λ d. p d ≡ false) ds

-- The record is one that passes, and none that passes is newer.
abbrev pub IsNewest : (Deployment → Bool) → List Deployment → Deployment → Type 0
IsNewest p ds m =
    Any (λ d. (d ≡ m) × (p d ≡ true)) ds
    × All (λ d. (p d ≡ false) ⊎ (d.created_at ≤ m.created_at)) ds

-- No record passes and none was picked, or the newest one that passes was.
abbrev pub Picked : (Deployment → Bool) → List Deployment → Option Deployment → Type 0
Picked p ds none = NonePasses p ds
Picked p ds (some m) = IsNewest p ds m

module _ (p : Deployment → Bool) where
  -- The record that the loop ends with, when it has the first one already.
  abbrev Outcome : Deployment → List Deployment → Type 0
  Outcome m ds =
      (r : Deployment) × ((pick_from p (some m) ds ≡ some r)
        × ((m.created_at ≤ r.created_at)
            × (((m ≡ r) ⊎ Any (λ d. (d ≡ r) × (p d ≡ true)) ds)
                × All (λ d. (p d ≡ false) ⊎ (d.created_at ≤ r.created_at)) ds)))

  not_older : (a b : ℕ) → ltb a b ≡ false → b ≤ a
  not_older a b h = ground arith

  pick_from-some : (m : Deployment) (ds : List Deployment) → Outcome m ds
  unfolding pick_from newer
  pick_from-some m [] = (m, (refl, (omega arith, (inl refl, tt))))
  pick_from-some m (d ∷ ds) = elim (Bool-cases (p d)) [
    | inr fails ↦
        let (r, (e, (le, (found, all)))) = pick_from-some m ds in
        (
          r,
          (
            rw fails e,
            (le, (elim found [ inl is ↦ inl is | inr there ↦ inr (inr there) ], (inl fails, all))),
          ),
        )
    | inl passes ↦ elim (Bool-cases (ltb m.created_at d.created_at)) [
      | inl older ↦
          let (r, (e, (le, (found, all)))) = pick_from-some d ds in
          let up = ltb→lt m.created_at d.created_at older in
          (
            r,
            (
              rw (passes, older) e,
              (
                omega (arith, up, le),
                (
                  elim found [ inl is ↦ inr (inl (is, passes)) | inr there ↦ inr (inr there) ],
                  (inr le, all),
                ),
              ),
            ),
          )
      | inr younger ↦
          let (r, (e, (le, (found, all)))) = pick_from-some m ds in
          let up = not_older m.created_at d.created_at younger in
          (
            r,
            (
              rw (passes, younger) e,
              (
                le,
                (
                  elim found [ inl is ↦ inl is | inr there ↦ inr (inr there) ],
                  (inr (omega (arith, up, le)), all),
                ),
              ),
            ),
          )
    ]
  ]

  Picked-skip :
      (d : Deployment) (ds : List Deployment) (o : Option Deployment)
      → p d ≡ false
      → Picked p ds o
      → Picked p (d ∷ ds) o
  Picked-skip d ds none fails h = (fails, h)
  Picked-skip d ds (some m) fails h = (inr h.0, (inl fails, h.1))

  pub pick_from-Picked : (ds : List Deployment) → Picked p ds (pick_from p none ds)
  unfolding pick_from newer
  pick_from-Picked [] = tt
  pick_from-Picked (d ∷ ds) = elim (Bool-cases (p d)) [
    | inr fails ↦ rw fails (Picked-skip d ds (pick_from p none ds) fails (pick_from-Picked ds))
    | inl passes ↦
        let (r, (e, (le, (found, all)))) = pick_from-some d ds in
        rw (passes, e)
          (elim found [ inl is ↦ inl (is, passes) | inr there ↦ inr there ], (inr le, all))
  ]

-- Whatever the records, the box that is picked is the newest record of the identifier and the project whose provider creates servers, a missing project counting as any; and none is picked only if there is no such record.
pub pick_managed_box-Picked :
    (deps : List Deployment) (project identifier : Text)
    → Picked (is_managed project identifier) deps (pick_managed_box deps project identifier)
unfolding pick_managed_box
pick_managed_box-Picked deps project identifier =
    pick_from-Picked (is_managed project identifier) deps

-- Whatever the records, the prior deployment is the newest record of the host and the identifier that can be continued: for a cluster, with an agent, or with a last step that ranks as high as `agent_paired`; and there is none only if there is no such record.
pub pick_prior_deployment-Picked :
    (deps : List Deployment) (host identifier : Text)
    → Picked (is_prior host identifier) deps (pick_prior_deployment deps host identifier)
unfolding pick_prior_deployment
pick_prior_deployment-Picked deps host identifier = pick_from-Picked (is_prior host identifier) deps
