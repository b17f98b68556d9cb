-- ===== src/Deploy/Store/Listing.antt =====
-- The order and the completeness of the list of deployments.
use nuzur_cli.Base.{
  ℕ, ◌≤◌, ◌≡◌, refl, ◌∙◌, ap, Bool, List, [], ◌∷◌, ltb, arith, All, Bool-cases, inl, inr, ltb→lt,
  count_if, ◌+◌, if◌then◌else◌, false,
}
use nuzur_cli.Deploy.{Deployment}
use nuzur_cli.Deploy.Store.{Dir, insert_deployment, sort_deployments, list_deployments, readable}

-- No record is older than one that follows it.
abbrev pub IsNewestFirst : List Deployment → Type 0
IsNewestFirst [] = Unit
IsNewestFirst (r ∷ rs) = All (λ x. x.created_at ≤ r.created_at) rs × IsNewestFirst rs

All-le_trans :
    (m n : ℕ) (rs : List Deployment)
    → m ≤ n
    → All (λ x. x.created_at ≤ m) rs
    → All (λ x. x.created_at ≤ n) rs
All-le_trans m n [] h a = tt
All-le_trans m n (x ∷ rs) h a = (omega (arith, h, a.0), All-le_trans m n rs h a.1)

ltb_false→le : (a b : ℕ) → ltb a b ≡ false → b ≤ a
ltb_false→le a b h = ground arith

insert_deployment-All :
    (P : Deployment → Type 0) (r : Deployment) (rs : List Deployment)
    → P r
    → All P rs
    → All P (insert_deployment r rs)
unfolding insert_deployment
insert_deployment-All P r [] p a = (p, tt)
insert_deployment-All P r (x ∷ rs) p a = elim (Bool-cases (ltb r.created_at x.created_at)) [
  | inl older ↦ rw older (a.0, insert_deployment-All P r rs p a.1)
  | inr place ↦ rw place (p, a)
]

insert_deployment-IsNewestFirst :
    (r : Deployment) (rs : List Deployment)
    → IsNewestFirst rs
    → IsNewestFirst (insert_deployment r rs)
unfolding insert_deployment
insert_deployment-IsNewestFirst r [] w = (tt, tt)
insert_deployment-IsNewestFirst r (x ∷ rs) w = elim (Bool-cases (ltb r.created_at x.created_at)) [
  | inl older ↦ rw older (
    insert_deployment-All (λ y. y.created_at ≤ x.created_at) r rs
        (omega (arith, ltb→lt r.created_at x.created_at older)) w.0,
    insert_deployment-IsNewestFirst r rs w.1,
  )
  | inr place ↦
      let newer = ltb_false→le r.created_at x.created_at place in
      rw place ((newer, All-le_trans x.created_at r.created_at rs newer w.0), w)
]

insert_deployment-count :
    (p : Deployment → Bool) (r : Deployment) (rs : List Deployment)
    → count_if p (insert_deployment r rs) ≡ (if p r then 1 else 0) + count_if p rs
unfolding insert_deployment
insert_deployment-count p r [] = refl
insert_deployment-count p r (x ∷ rs) = ground (arith, insert_deployment-count p r rs)

sort_deployments-IsNewestFirst : (rs : List Deployment) → IsNewestFirst (sort_deployments rs)
unfolding sort_deployments
sort_deployments-IsNewestFirst [] = tt
sort_deployments-IsNewestFirst (r ∷ rs) =
    insert_deployment-IsNewestFirst r (sort_deployments rs) (sort_deployments-IsNewestFirst rs)

sort_deployments-count :
    (p : Deployment → Bool) (rs : List Deployment)
    → count_if p (sort_deployments rs) ≡ count_if p rs
unfolding sort_deployments
sort_deployments-count p [] = refl
sort_deployments-count p (r ∷ rs) =
    insert_deployment-count p r (sort_deployments rs)
    ∙ ap (λ n. (if p r then 1 else 0) + n) (sort_deployments-count p rs)

-- Whatever the directory holds, the listing stands newest first, and for each test of a record it has as many records that pass as there are files with the suffix `.json` that hold one that passes.
pub list_deployments-IsNewestFirst :
    (d : Dir)
    → IsNewestFirst (list_deployments d)
      × ((p : Deployment → Bool) → count_if p (list_deployments d) ≡ count_if p (readable d))
unfolding list_deployments
list_deployments-IsNewestFirst d =
    (sort_deployments-IsNewestFirst (readable d), λ p. sort_deployments-count p (readable d))
