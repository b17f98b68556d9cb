-- ===== src/Deploy/Store/Loaded.antt =====
-- What the record of an id loads as after a mutation, whichever of its calls failed.
use mathlib.Core.Option.{some-injective}
use nuzur_cli.Base.{
  ℕ, ◌≡◌, refl, sym, ◌∙◌, ◌⊎◌, inl, inr, false, [], ◌∷◌, ◌++◌, Option, none, some, ap, arith,
}
use nuzur_cli.Deploy.{Deployment}
use nuzur_cli.Deploy.Store.{
  File, Dir, find, put, remove, file_path, tmp_path, holds, unparsable, unreadable, directory,
  SaveError, StoreError, creating_dir, marshaling, writing, renaming, save_deployment, write_back,
  load_or_create, proceed, mutate_deployment, load_deployment, last_moment, parsed,
}
use nuzur_cli.Deploy.Store.Kept.{find-remove, find-put, find-put_same, made_of}
use nuzur_cli.Text.{Text, codes, equal}

append_longer : (s : Text) (c : ℕ) (t : Text) → equal (s ++ c ∷ t) s ≡ false
unfolding equal
append_longer [] c t = refl
append_longer (x ∷ s) c t = ground (arith, append_longer s c t)

load_deployment-holds :
    (id : Text) (r : Deployment) (d : Dir)
    → find (file_path id) d ≡ some (holds r)
    → load_deployment id d ≡ inl r
unfolding load_deployment parsed
load_deployment-holds id r d h = ap parsed h

proceed-result :
    (id : Text) (fn : Deployment → Deployment) (fault : Option SaveError) (d : Dir)
    (l : Deployment ⊎ StoreError) (r : Deployment)
    → (proceed id fn fault d l).result ≡ some r
    → (load_deployment id (last_moment d (proceed id fn fault d l).moments) ≡ inl r) × (r.id ≡ id)
unfolding proceed write_back save_deployment
proceed-result id fn fault d (inr e) r h = ground (arith, h)
proceed-result id fn (some creating_dir) d (inl o) r h = ground (arith, h)
proceed-result id fn (some marshaling) d (inl o) r h = ground (arith, h)
proceed-result id fn (some writing) d (inl o) r h = ground (arith, h)
proceed-result id fn (some renaming) d (inl o) r h = ground (arith, h)
proceed-result id fn none d (inl o) r h =
    let made = record (fn o) { id = id } in
    let same = some-injective made r h in
    (
      load_deployment-holds id made (put (file_path id) (holds made) (remove (tmp_path id) d))
            (find-put_same (file_path id) (holds made) (remove (tmp_path id) d))
          ∙ ap inl same,
      ap (λ x. x.id) (sym same),
    )

-- If a mutation returns a record, then loading its id afterwards gives that record, and the record has that id.
pub mutate_deployment-load :
    (id : Text) (fn : Deployment → Deployment) (fault : Option SaveError) (d : Dir) (r : Deployment)
    → (mutate_deployment id (some fn) fault d).result ≡ some r
    → (load_deployment id (last_moment d (mutate_deployment id (some fn) fault d).moments) ≡ inl r)
      × (r.id ≡ id)
unfolding mutate_deployment
mutate_deployment-load id fn fault d r h =
    proceed-result id fn fault d (load_or_create (find (file_path id) d)) r h

proceed-fails :
    (id : Text) (fn : Deployment → Deployment) (fault : Option SaveError) (d : Dir)
    (l : Deployment ⊎ StoreError)
    → (proceed id fn fault d l).result ≡ none
    → find (file_path id) (last_moment d (proceed id fn fault d l).moments) ≡ find (file_path id) d
unfolding proceed write_back save_deployment
proceed-fails id fn fault d (inr e) h = refl
proceed-fails id fn (some creating_dir) d (inl o) h = refl
proceed-fails id fn (some marshaling) d (inl o) h = refl
proceed-fails id fn (some writing) d (inl o) h =
    find-put (tmp_path id) (file_path id) unparsable d
      (append_longer (file_path id) b'.' (codes "tmp"))
proceed-fails id fn (some renaming) d (inl o) h =
    find-remove (tmp_path id) (file_path id) d (append_longer (file_path id) b'.' (codes "tmp"))
proceed-fails id fn none d (inl o) h = ground (arith, h)

-- If a mutation returns no record, whichever call failed, then at its end the file of the record is as it was.
pub mutate_deployment-fails :
    (id : Text) (fn : Deployment → Deployment) (fault : Option SaveError) (d : Dir)
    → (mutate_deployment id (some fn) fault d).result ≡ none
    → find (file_path id) (last_moment d (mutate_deployment id (some fn) fault d).moments)
      ≡ find (file_path id) d
unfolding mutate_deployment
mutate_deployment-fails id fn fault d h =
    proceed-fails id fn fault d (load_or_create (find (file_path id) d)) h

parsed-inl : (o : Option File) (r : Deployment) → parsed o ≡ inl r → o ≡ some (holds r)
unfolding parsed
parsed-inl none r h = ground (arith, h)
parsed-inl (some (holds s)) r h = ap (λ x. some (holds x)) (made_of h)
parsed-inl (some unparsable) r h = ground (arith, h)
parsed-inl (some unreadable) r h = ground (arith, h)
parsed-inl (some directory) r h = ground (arith, h)

proceed-made :
    (id : Text) (fn : Deployment → Deployment) (fault : Option SaveError) (d : Dir)
    (o r : Deployment)
    → (proceed id fn fault d (inl o)).result ≡ some r
    → r ≡ record (fn o) { id = id }
unfolding proceed write_back save_deployment
proceed-made id fn (some creating_dir) d o r h = ground (arith, h)
proceed-made id fn (some marshaling) d o r h = ground (arith, h)
proceed-made id fn (some writing) d o r h = ground (arith, h)
proceed-made id fn (some renaming) d o r h = ground (arith, h)
proceed-made id fn none d o r h = sym (some-injective (record (fn o) { id = id }) r h)

after_result :
    (id : Text) (fn : Deployment → Deployment) (fault : Option SaveError) (d : Dir) (o : Deployment)
    (result : Option Deployment)
    → find (file_path id) d ≡ some (holds o)
    → (mutate_deployment id (some fn) fault d).result ≡ result
    → (load_deployment id (last_moment d (mutate_deployment id (some fn) fault d).moments) ≡ inl o)
      ⊎ (load_deployment id (last_moment d (mutate_deployment id (some fn) fault d).moments)
          ≡ inl (record (fn o) { id = id }))
unfolding mutate_deployment load_or_create
after_result id fn fault d o none there h = inl (
    load_deployment-holds id o (last_moment d (mutate_deployment id (some fn) fault d).moments)
      (mutate_deployment-fails id fn fault d h ∙ there))
after_result id fn fault d o (some r) there h = inr (
    (mutate_deployment-load id fn fault d r h).0
    ∙ ap inl (
        proceed-made id fn fault d o r
          (ap (λ f. (proceed id fn fault d (load_or_create f)).result) (sym there) ∙ h)))

-- Where a record can be loaded, after a mutation it loads as it was or as the function makes it, under its id.
pub mutate_deployment-after :
    (id : Text) (fn : Deployment → Deployment) (fault : Option SaveError) (d : Dir) (o : Deployment)
    → load_deployment id d ≡ inl o
    → (load_deployment id (last_moment d (mutate_deployment id (some fn) fault d).moments) ≡ inl o)
      ⊎ (load_deployment id (last_moment d (mutate_deployment id (some fn) fault d).moments)
          ≡ inl (record (fn o) { id = id }))
unfolding load_deployment
mutate_deployment-after id fn fault d o h =
    after_result id fn fault d o (mutate_deployment id (some fn) fault d).result
      (parsed-inl (find (file_path id) d) o h) refl
