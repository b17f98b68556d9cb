-- ===== src/App/Pipeline/Records/Untouched.antt =====
-- Which parts of a record only some of the writes of a run change.
use nuzur_cli.Base.{
  ◌≡◌, refl, ◌∙◌, inl, inr, Bool, ◌⊎◌, Any, true, false, not, ◌&&◌, List, [], ◌∷◌, Option, none,
  some, Bool-cases, subst, ap, sym,
}
use nuzur_cli.Deploy.{Deployment, Provider, creates_infrastructure}
use nuzur_cli.Deploy.Store.{Dir, SaveError, load_deployment}
use nuzur_cli.Deploy.Store.Loaded.{mutate_deployment-after}
use nuzur_cli.Text.{Text}
use nuzur_cli.App.Pipeline.Records.{
  RunFacts, RecordWrite, pending, instance_created, box_recorded, agent_paired, finalized,
  write_record, write_once, apply_write, write_all, released, failure_noted, record_release,
  record_final, record_failure, record_pending, record_instance, record_box, record_box_fields,
  record_box_workspace, record_origin, carry_forward, record_agent, adopted_record, has_handle,
}

-- The addresses of the app and the team connection.
abbrev pub addresses : Deployment → List Text
addresses r = r.api_url ∷ r.public_url ∷ r.data_manager_url ∷ r.team_conn_uuid ∷ []

-- What is released on the cluster.
abbrev pub release_fields : Deployment → List Text
release_fields r = r.namespace ∷ r.release_name ∷ r.chart_version ∷ r.image_ref ∷ []

abbrev pub is_finalized : RecordWrite → Bool
is_finalized (finalized s) = true
is_finalized _ = false

abbrev pub is_released : RecordWrite → Bool
is_released (released s) = true
is_released _ = false

-- The writes at the end of a run, of which one sets and one clears its error.
abbrev pub is_end : RecordWrite → Bool
is_end (finalized s) = true
is_end (failure_noted e) = true
is_end _ = false

-- What no write before the end changes but for a release.
abbrev links : Deployment → List Text × (List Text × Text)
links r = (addresses r, (release_fields r, r.last_error))

links-workspace : (dir : Text) (r : Deployment) → links (record_box_workspace dir r) ≡ links r
unfolding record_box_workspace
links-workspace [] r = refl
links-workspace (c ∷ dir) r = refl

links-carry_forward :
    (provider : Provider) (p r : Deployment) → links (carry_forward provider p r) ≡ links r
unfolding carry_forward
links-carry_forward provider p r =
    elim (Bool-cases (not (creates_infrastructure provider) && has_handle p)) [
      | inl carries ↦ rw carries refl
      | inr stays ↦ rw stays refl
    ]

links-origin :
    (s : RunFacts) (prior adopted : Option Deployment) (r : Deployment)
    → links (record_origin s prior adopted r) ≡ links r
unfolding record_origin
links-origin s (some p) adopted r =
    links-carry_forward s.provider p (record r { created_at = p.created_at })
links-origin s none (some a) r = refl
links-origin s none none r = refl

links-record_box : (s : RunFacts) (r : Deployment) → links (record_box s r) ≡ links r
unfolding record_box record_box_fields
links-record_box s r =
    links-origin s s.prior (adopted_record s)
      (record_box_workspace s.workspace_dir (record_box_fields s r))
    ∙ links-workspace s.workspace_dir (record_box_fields s r)

-- A write of one kind, or no change.
abbrev Kept : {A : Type 0} → (RecordWrite → Bool) → (Deployment → A) → Type 0
Kept p f = (w : RecordWrite) (r : Deployment) → (p w ≡ true) ⊎ (f (write_record w r) ≡ f r)

addresses-Kept : Kept is_finalized addresses
unfolding write_record record_pending record_instance record_agent record_release record_failure
addresses-Kept (pending s) r = inr refl
addresses-Kept (instance_created ref) r = inr refl
addresses-Kept (box_recorded s) r = inr (ap (λ l. l.0) (links-record_box s r))
addresses-Kept (agent_paired s) r = inr refl
addresses-Kept (released s) r = inr refl
addresses-Kept (finalized s) r = inl refl
addresses-Kept (failure_noted e) r = inr refl

release_fields-Kept : Kept is_released release_fields
unfolding write_record record_pending record_instance record_agent record_final record_failure
release_fields-Kept (pending s) r = inr refl
release_fields-Kept (instance_created ref) r = inr refl
release_fields-Kept (box_recorded s) r = inr (ap (λ l. l.1.0) (links-record_box s r))
release_fields-Kept (agent_paired s) r = inr refl
release_fields-Kept (released s) r = inl refl
release_fields-Kept (finalized s) r = inr (ap (λ l. l.1.0) (links-workspace s.workspace_dir r))
release_fields-Kept (failure_noted e) r = inr refl

error-Kept : Kept is_end (λ r. r.last_error)
unfolding write_record record_pending record_instance record_agent record_release
error-Kept (pending s) r = inr refl
error-Kept (instance_created ref) r = inr refl
error-Kept (box_recorded s) r = inr (ap (λ l. l.1.1) (links-record_box s r))
error-Kept (agent_paired s) r = inr refl
error-Kept (released s) r = inr refl
error-Kept (finalized s) r = inl refl
error-Kept (failure_noted e) r = inl refl

abbrev pub Writes : Type 0
Writes = List (RecordWrite × Option SaveError)

-- One of the writes is of this kind, or these are equal.
abbrev pub Unless : {A : Type 0} → (RecordWrite → Bool) → Writes → A → A → Type 0
Unless p ws x y = Any (λ w. p w.0 ≡ true) ws ⊎ (x ≡ y)

-- The record loads, and each part of it that no write of its kind is there for is as in the other one.
abbrev pub LoadsLike : Text → Deployment → Writes → Dir → Type 0
LoadsLike id o ws d =
    (r : Deployment) × (load_deployment id d ≡ inl r)
    × Unless is_finalized ws (addresses r) (addresses o)
    × Unless is_released ws (release_fields r) (release_fields o)
    × Unless is_end ws r.last_error o.last_error

Unless-later :
    {A : Type 0} (p : RecordWrite → Bool) (w : RecordWrite × Option SaveError) (ws : Writes)
    (x y z : A)
    → (p w.0 ≡ true) ⊎ (y ≡ z)
    → Unless p ws x y
    → Unless p (w ∷ ws) x z
Unless-later p w ws x y z (inl is) later = inl (inl is)
Unless-later p w ws x y z (inr same) (inl any) = inl (inr any)
Unless-later p w ws x y z (inr same) (inr kept) = inr (kept ∙ same)

-- From the record before a write, or the one after it, to the one at the end.
LoadsLike-later :
    (id : Text) (w : RecordWrite × Option SaveError) (ws : Writes) (o m : Deployment) (d : Dir)
    → (is_finalized w.0 ≡ true) ⊎ (addresses m ≡ addresses o)
    → (is_released w.0 ≡ true) ⊎ (release_fields m ≡ release_fields o)
    → (is_end w.0 ≡ true) ⊎ (m.last_error ≡ o.last_error)
    → LoadsLike id m ws d
    → LoadsLike id o (w ∷ ws) d
LoadsLike-later id w ws o m d a b c (r, loads, x, y, z) = (
  r,
  loads,
  Unless-later is_finalized w ws _ _ _ a x,
  Unless-later is_released w ws _ _ _ b y,
  Unless-later is_end w ws _ _ _ c z,
)

apply_write-loads :
    (id : Text) (w : RecordWrite) (fault : Option SaveError) (d : Dir) (o : Deployment)
    → load_deployment id d ≡ inl o
    → apply_write id w fault d ≡ write_once id w fault d
unfolding apply_write
apply_write-loads id (pending s) fault d o there = refl
apply_write-loads id (instance_created ref) fault d o there = refl
apply_write-loads id (box_recorded s) fault d o there = refl
apply_write-loads id (agent_paired s) fault d o there = refl
apply_write-loads id (released s) fault d o there = refl
apply_write-loads id (finalized s) fault d o there = refl
apply_write-loads id (failure_noted e) fault d o there = rw (there, apply_write) refl

-- A record that can be loaded can be loaded after any writes of a run, whichever of them fail; and unless a write that
-- finalizes it is among them it has the same addresses and team connection as before, unless a release is among
-- them the same release, and unless a write that finalizes it or records a failure is among them the same last error.
pub write_all-LoadsLike :
    (id : Text) (ws : Writes) (d : Dir) (o : Deployment)
    → load_deployment id d ≡ inl o
    → LoadsLike id o ws (write_all id ws d)
unfolding write_all write_once
write_all-LoadsLike id [] d o there = (o, there, inr refl, inr refl, inr refl)
write_all-LoadsLike id ((w, fault) ∷ ws) d o there =
    let next = write_once id w fault d in
    subst (λ (e : Dir). LoadsLike id o ((w, fault) ∷ ws) (write_all id ws e))
      (sym (apply_write-loads id w fault d o there))
      (elim (mutate_deployment-after id (write_record w) fault d o there) [
        | inl same ↦
            LoadsLike-later id (w, fault) ws o o (write_all id ws next) (inr refl) (inr refl)
              (inr refl) (write_all-LoadsLike id ws next o same)
        | inr made ↦
            LoadsLike-later id (w, fault) ws o (record (write_record w o) { id = id })
              (write_all id ws next) (addresses-Kept w o) (release_fields-Kept w o) (error-Kept w o)
              (write_all-LoadsLike id ws next (record (write_record w o) { id = id }) made)
      ])
